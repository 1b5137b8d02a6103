-- ===== src/Artifacts/Invalidate/Ends.antt =====
-- `_cascade_invalidate` ends with enough fuel, and leaves no approved composite that mentions an
-- artifact that it has visited.
use homepilot_core_public.Base.{
  ℕ, zero, suc, ◌≤◌, ◌<◌, String, ◌≡◌, ◌≢◌, inl, inr, true, ◌||◌, Option, none, some, List, [], ◌∷◌,
  arith, ◌=ˢ◌, ◌∈ˢ◌, Bool-cases, eq_iff, All, All-map, ∈-cases, ∈-head, Option-cases,
}
use homepilot_core_public.Base.Dict.{Dict, lookup, NodupKeys}
use homepilot_core_public.Base.Visited.{remaining, remaining-lt, remaining_mono}
use homepilot_core_public.Artifacts.Model.{approved, Frontmatter, Result, ok}
use homepilot_core_public.Artifacts.Body.{extract_body, universal_newlines}
use homepilot_core_public.Artifacts.World.{Doc, World, Env, read_file, list_composites}
use homepilot_core_public.Artifacts.World.Reads.{known}
use homepilot_core_public.Artifacts.Invalidate.{
  mentions, Walk, invalidate, invalidate_candidate, invalidate_loop, cascade_invalidate,
}
use homepilot_core_public.Artifacts.Invalidate.Lower.{
  IsOpen, Lower, kept, lowered, Lowered, Lowered-approved, NotApproved, NotApproved-Lowered,
  Settled, Settled-Lowered,
}
use homepilot_core_public.Artifacts.Invalidate.Listing
use homepilot_core_public.Artifacts.Invalidate.Listing.{
  list_composites-Found, list_composites-complete,
}
use homepilot_core_public.Artifacts.Invalidate.Sound.{
  Goes, Goes-map, Goes-bind, IsLater, IsLater-refl, IsLater-trans, invalidate-IsLater,
  invalidate-NotApproved,
}

-- A document that is approved, or that the walk has put back to `proposed`.
abbrev OpenAt : World → String → Type 0
OpenAt w c = (d : Doc) × (read_file w.files c ≡ ok d) × IsOpen d.fm.status

OpenAt-Lower :
    (r r' : Result Doc)
    → Lower r r'
    → (d : Doc) → r ≡ ok d
    → IsOpen d.fm.status
    → (d' : Doc) × (r' ≡ ok d') × IsOpen d'.fm.status
OpenAt-Lower r r' (kept e) d p o = (d, cc, o)
OpenAt-Lower r r' (lowered e e' q q' o' n) d p o = (e', q', inr n)

-- What a walk may rely on where it stands.
record IsReady (s : Walk) : Type 0 where
  unique : NodupKeys s.world.files
  spent : (v : String) → v ∈ˢ s.visited ≡ true → NotApproved s.world v

IsReady-later : (s t : Walk) → IsReady s → IsLater s t → IsReady t
IsReady-later s t r l = record {
  unique = l.unique r.unique;
  spent = λ v h. elim (l.settles v h) [
    | inl p ↦ NotApproved-Lowered s.world t.world v l.lowers (r.spent v p)
    | inr p ↦ p.0
  ];
}

remaining-later :
    (s t : Walk)
    → IsLater s t
    → remaining t.visited t.world.files ≤ remaining s.visited s.world.files
remaining-later s t l =
    omega (arith, l.keys t.visited, remaining_mono s.visited t.visited s.world.files l.grows)

looked_up :
    (files : Dict Doc) (c : String) {d : Doc}
    → read_file files c ≡ ok d
    → (d0 : Doc) × (lookup c files ≡ some d0) × (d0.fm ≡ d.fm)
unfolding read_file
looked_up files c e = elim (Option-cases (lookup c files)) [
  | inl missing ↦ absurd (ground arith)
  | inr (d0, l) ↦ (d0, l, ground arith)
]

Found-OpenAt : (w : World) (c : String) → Listing.Found w.files c → OpenAt w c
unfolding read_file
Found-OpenAt w c (d, l, a) =
    (record d { body = extract_body (universal_newlines d.body) }, ground (arith, l), inl a)

IsReady-enter :
    (edited : String) (s : Walk)
    → IsReady s
    → NotApproved s.world edited
    → IsReady (record s { visited = edited ∷ s.visited })
IsReady-enter edited s r n = record {
  unique = r.unique;
  spent =
      λ v h. elim (∈-cases v edited s.visited h) [ inl same ↦ rw (← same) n | inr q ↦ r.spent v q ];
}

-- The edited artifact counts as visited once it is settled.
entered :
    (edited : String) (s t : Walk)
    → NotApproved s.world edited
    → IsLater (record s { visited = edited ∷ s.visited }) t
    → ((c : String) → Settled edited t.world c)
    → IsLater s t
entered edited s t n l clean = record {
  lowers = l.lowers;
  keys = l.keys;
  stays = l.stays;
  unique = l.unique;
  grows = λ x h. l.grows x (ground arith);
  settles = λ v h. elim (l.settles v h) [
    | inr p ↦ inr p
    | inl p ↦ elim (∈-cases v edited s.visited p) [
      | inr q ↦ inl q
      | inl same ↦
          inr
            (rw (← same) (NotApproved-Lowered s.world t.world edited l.lowers n), rw (← same) clean)
    ]
  ];
}

module _ (env : Env) where
  abbrev Promise : ℕ → (String → Walk → Option Walk) → Type 0
  Promise fuel deeper =
      (cid : String) (s : Walk)
      → IsReady s
      → lookup cid s.world.files ≢ none
      → NotApproved s.world cid
      → remaining s.visited s.world.files < fuel
      → Goes (λ t. IsLater s t × (cid ∈ˢ t.visited ≡ true)) (deeper cid s)

  module _ (fuel : ℕ) (deeper : String → Walk → Option Walk) (promise : Promise fuel deeper)
      (edited : String) where
    abbrev Round : Walk → String → Walk → Type 0
    Round s cid t = IsLater s t × Settled edited t.world cid

    -- A candidate that is neither the edited artifact nor visited.
    candidate_new :
        (cid : String) (listed : Frontmatter) (s : Walk) (d : Doc)
        → IsReady s
        → read_file s.world.files cid ≡ ok d
        → IsOpen d.fm.status
        → remaining s.visited s.world.files < fuel
        → mentions edited d.body ≡ true
        → Goes
            (Round s cid)
            (deeper cid (record s { world = invalidate env edited cid listed d.body s.world }))
    candidate_new cid listed s d r e o room m =
        let s' : Walk = record s { world = invalidate env edited cid listed d.body s.world } in
        let l = invalidate-IsLater env edited cid listed d s e o in
        let n = invalidate-NotApproved env edited cid listed d.body s.world in
        Goes-map (λ t. IsLater s' t × (cid ∈ˢ t.visited ≡ true)) (Round s cid)
          (λ t h. (
            IsLater-trans s s' t l h.0,
            λ d' e' a. absurd (NotApproved-Lowered s'.world t.world cid h.0.lowers n d' e' a),
          ))
          (deeper cid s')
          (promise cid s' (IsReady-later s s' r l) (l.stays cid (known s.world.files cid e)) n
            (omega (arith, remaining-later s s' l)))

    candidate-Goes :
        (cid : String) (listed : Frontmatter) (s : Walk)
        → IsReady s
        → OpenAt s.world cid
        → remaining s.visited s.world.files < fuel
        → Goes (Round s cid) (invalidate_candidate env deeper edited cid listed s)
    unfolding invalidate_candidate
    candidate-Goes cid listed s r (d, e, o) room =
        elim (Bool-cases (cid =ˢ edited || cid ∈ˢ s.visited)) [
          | inl skip ↦ rw skip (IsLater-refl s, skipped skip)
          | inr go ↦
              rw (go, e)
                (elim (Bool-cases (mentions edited d.body)) [
                  | inl m ↦ rw m (candidate_new cid listed s d r e o room m)
                  | inr nm ↦
                      rw nm
                        (IsLater-refl s, λ d' e' a k ne. let same : d ≡ d' = cc in rw (← same) nm)
                ])
        ]
      where
        skipped : (cid =ˢ edited || cid ∈ˢ s.visited) ≡ true → Settled edited s.world cid
        skipped skip d' e' a k ne = elim (Bool-cases (cid ∈ˢ s.visited)) [
          | inl v ↦ absurd (r.spent cid v d' e' a)
          | inr nv ↦ absurd (ne ((eq_iff cid edited).0 (ground arith)))
        ]

    loop-Goes :
        (candidates : List (String × Frontmatter)) (s : Walk)
        → IsReady s
        → All (λ c. OpenAt s.world c.0) candidates
        → remaining s.visited s.world.files < fuel
        → Goes
            (λ t. IsLater s t × All (λ c. Settled edited t.world c.0) candidates)
            (invalidate_loop env deeper edited candidates s)
    unfolding invalidate_loop
    loop-Goes [] s r os room = (IsLater-refl s, tt)
    loop-Goes ((cid, listed) ∷ rest) s r os room =
        Goes-bind (Round s cid)
          (λ t. IsLater s t × All (λ c. Settled edited t.world c.0) ((cid, listed) ∷ rest))
          (invalidate_candidate env deeper edited cid listed s)
          (invalidate_loop env deeper edited rest) (candidate-Goes cid listed s r os.0 room)
          λ t h.
            Goes-map (λ u. IsLater t u × All (λ c. Settled edited u.world c.0) rest)
              (λ u. IsLater s u × All (λ c. Settled edited u.world c.0) ((cid, listed) ∷ rest))
              (λ u k. (
                IsLater-trans s t u h.0 k.0,
                (Settled-Lowered edited t.world u.world cid k.0.lowers h.1, k.1),
              ))
              (invalidate_loop env deeper edited rest t)
              (loop-Goes rest t (IsReady-later s t r h.0)
                (All-map (λ (c : String × Frontmatter). OpenAt s.world c.0)
                  (λ c. OpenAt t.world c.0)
                  (λ c o.
                    OpenAt-Lower (read_file s.world.files c.0) (read_file t.world.files c.0)
                      (h.0.lowers c.0) o.0 o.1 o.2)
                  rest os.1)
                (omega (arith, remaining-later s t h.0)))

  -- The approved composites are all settled, so nothing approved mentions the edited artifact.
  Settled-All :
      (edited : String) (s t : Walk)
      → Lowered s.world t.world
      → All (λ c. Settled edited t.world c.0) (list_composites approved s.world.files)
      → (c : String) → Settled edited t.world c
  Settled-All edited s t low all c d e a k =
      let (d0, l, same) =
        looked_up s.world.files c (Lowered-approved s.world t.world low c d e a) in
      list_composites-complete (Settled edited t.world) s.world.files c d0 l (ground (arith, same))
        (ground (arith, same)) all d e a k

  cascade_goes : (fuel : ℕ) → Promise fuel (cascade_invalidate env fuel)
  unfolding cascade_invalidate
  cascade_goes zero edited s r there n room = absurd (omega arith)
  cascade_goes (suc fuel) edited s r there n room = elim (Bool-cases (edited ∈ˢ s.visited)) [
    | inl before ↦ rw before (IsLater-refl s, before)
    | inr new ↦
        let s' : Walk = record s { visited = edited ∷ s.visited } in
        rw new (
          Goes-map
            (λ t.
              IsLater s' t
              × All (λ c. Settled edited t.world c.0) (list_composites approved s.world.files))
            (λ t. IsLater s t × (edited ∈ˢ t.visited ≡ true))
            (λ t h. (
              entered edited s t n h.0 (Settled-All edited s t h.0.lowers h.1),
              h.0.grows edited (∈-head edited s.visited),
            ))
            (invalidate_loop env (cascade_invalidate env fuel) edited
              (list_composites approved s.world.files) s')
            (loop-Goes fuel (cascade_invalidate env fuel) (cascade_goes fuel) edited
              (list_composites approved s.world.files) s' (IsReady-enter edited s r n)
              (All-map (λ (c : String × Frontmatter). Listing.Found s.world.files c.0)
                (λ c. OpenAt s.world c.0) (λ c f. Found-OpenAt s.world c.0 f)
                (list_composites approved s.world.files)
                (list_composites-Found s.world.files r.unique))
              (omega (arith, remaining-lt edited s.visited s.world.files there new))))
  ]

  -- The call that `edit` makes, on an artifact that is not approved any more.
  pub cascade_invalidate-Goes :
      (fuel : ℕ) (edited : String) (w : World)
      → NodupKeys w.files
      → lookup edited w.files ≢ none
      → NotApproved w edited
      → remaining [] w.files < fuel
      → Goes
          (λ t.
            Lowered w t.world × ((c : String) → Settled edited t.world c) × NodupKeys t.world.files)
          (cascade_invalidate env fuel edited (record { visited = []; world = w }))
  cascade_invalidate-Goes fuel edited w u there n room =
      let s : Walk = record { visited = []; world = w } in
      Goes-map (λ t. IsLater s t × (edited ∈ˢ t.visited ≡ true))
        (λ t.
          Lowered w t.world × ((c : String) → Settled edited t.world c) × NodupKeys t.world.files)
        (λ t h. (
          h.0.lowers,
          elim (h.0.settles edited h.1) [ inl p ↦ absurd (ground arith) | inr p ↦ p.1 ],
          h.0.unique u,
        ))
        (cascade_invalidate env fuel edited s)
        (cascade_goes fuel edited s (record { unique = u; spent = λ v h. absurd (ground arith) })
          there n room)
