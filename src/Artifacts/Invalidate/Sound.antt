-- ===== src/Artifacts/Invalidate/Sound.antt =====
-- What `_cascade_invalidate` does: it ends, it only takes approvals back, and when it is done no
-- approved composite mentions an artifact that it has visited.
use homepilot_core_public.Base.{
  String, ◌≡◌, refl, ap, ◌∙◌, ◌≢◌, ◌⊎◌, inl, inr, true, Option, none, some, List, arith, ◌=ˢ◌, ◌∈ˢ◌,
  if◌then◌else◌, Bool-cases, eq_iff,
}
use homepilot_core_public.Base.Text.{Text}
use homepilot_core_public.Base.Dict.{
  Dict, lookup, insert, lookup-insert, NodupKeys, NodupKeys-insert,
}
use homepilot_core_public.Base.Visited.{IsWithin, remaining, remaining-insert}
use homepilot_core_public.Artifacts.Model.{proposed, Frontmatter, ok}
use homepilot_core_public.Artifacts.World.{
  Doc, World, Env, read_file, write_file, log_audit, sync_to_db,
}
use homepilot_core_public.Artifacts.World.Reads.{as_read, read-insert, known}
use homepilot_core_public.Artifacts.Invalidate.{Walk, ◌>>?◌, invalidate}
use homepilot_core_public.Artifacts.Invalidate.Lower.{
  IsOpen, kept, lowered, Lowered, Lowered-refl, Lowered-trans, NotApproved, NotApproved-Lowered,
  Settled, Settled-Lowered,
}

-- The walk goes on, with what `P` says of its state.
abbrev pub Goes : (Walk → Type 0) → Option Walk → Type 0
Goes P none = ⊥
Goes P (some s) = P s

pub Goes-map :
    (P Q : Walk → Type 0) → ((s : Walk) → P s → Q s) → (o : Option Walk) → Goes P o → Goes Q o
Goes-map P Q h none p = p
Goes-map P Q h (some s) p = h s p

pub Goes-bind :
    (P Q : Walk → Type 0) (o : Option Walk) (f : Walk → Option Walk)
    → Goes P o
    → ((s : Walk) → P s → Goes Q (f s))
    → Goes Q (o >>? f)
Goes-bind P Q none f p h = absurd p
Goes-bind P Q (some s) f p h = h s p

-- From one state of the walk to a later one.
pub record IsLater (s t : Walk) : Type 0 where
  pub lowers : Lowered s.world t.world
  pub keys : (v : List String) → remaining v t.world.files ≡ remaining v s.world.files
  pub stays : (x : String) → lookup x s.world.files ≢ none → lookup x t.world.files ≢ none
  pub unique : NodupKeys s.world.files → NodupKeys t.world.files
  pub grows : IsWithin s.visited t.visited
  pub settles :
      (v : String)
      → v ∈ˢ t.visited ≡ true
      → (v ∈ˢ s.visited ≡ true) ⊎ (NotApproved t.world v × ((c : String) → Settled v t.world c))

pub IsLater-refl : (s : Walk) → IsLater s s
IsLater-refl s = record {
  lowers = Lowered-refl s.world;
  keys = λ v. refl;
  stays = λ x h. h;
  unique = λ h. h;
  grows = λ x h. h;
  settles = λ v h. inl h;
}

pub IsLater-trans : (r s t : Walk) → IsLater r s → IsLater s t → IsLater r t
IsLater-trans r s t a b = record {
  lowers = Lowered-trans r.world s.world t.world a.lowers b.lowers;
  keys = λ v. b.keys v ∙ a.keys v;
  stays = λ x h. b.stays x (a.stays x h);
  unique = λ h. b.unique (a.unique h);
  grows = λ x h. b.grows x (a.grows x h);
  settles = λ v h. elim (b.settles v h) [
    | inr p ↦ inr p
    | inl p ↦ elim (a.settles v p) [
      | inl q ↦ inl q
      | inr q ↦ inr (
        NotApproved-Lowered s.world t.world v b.lowers q.0,
        λ c. Settled-Lowered v s.world t.world c b.lowers (q.1 c),
      )
    ]
  ];
}

pub stays-insert :
    (k x : String) (d : Doc) (files : Dict Doc)
    → lookup x files ≢ none
    → lookup x (insert k d files) ≢ none
stays-insert k x d files h e = ground (arith, lookup-insert k x d files)

module _ (env : Env) where
  files-invalidate :
      (edited cid : String) (listed : Frontmatter) (cbody : Text) (w : World)
      → (invalidate env edited cid listed cbody w).files
        ≡ insert cid
            (record { fm = record listed { status = proposed; approved_by = none }; body = cbody })
            w.files
  unfolding invalidate write_file log_audit sync_to_db
  files-invalidate edited cid listed cbody w = ground arith

  read-invalidate :
      (edited cid x : String) (listed : Frontmatter) (cbody : Text) (w : World)
      → read_file (invalidate env edited cid listed cbody w).files x ≡ (
          if cid =ˢ x
          then ok (as_read (record listed { status = proposed; approved_by = none }) cbody)
          else read_file w.files x)
  read-invalidate edited cid x listed cbody w =
      ap (λ f. read_file f x) (files-invalidate edited cid listed cbody w)
      ∙ read-insert cid x
          (record { fm = record listed { status = proposed; approved_by = none }; body = cbody })
          w.files

  -- The write that takes one approval back.
  pub invalidate-IsLater :
      (edited cid : String) (listed : Frontmatter) (d : Doc) (s : Walk)
      → read_file s.world.files cid ≡ ok d
      → IsOpen d.fm.status
      → IsLater s (record s { world = invalidate env edited cid listed d.body s.world })
  invalidate-IsLater edited cid listed d s e o =
      let fs = files-invalidate edited cid listed d.body s.world in
      record {
        lowers = λ x. elim (Bool-cases (cid =ˢ x)) [
          | inl same ↦
              lowered d (as_read (record listed { status = proposed; approved_by = none }) d.body)
                (cc ((eq_iff cid x).0 same, e))
                (ground (arith, read-invalidate edited cid x listed d.body s.world)) o refl
          | inr other ↦ kept (ground (arith, read-invalidate edited cid x listed d.body s.world))
        ];
        keys = λ v. rw fs (remaining-insert cid _ v s.world.files (known s.world.files cid e));
        stays = λ x h. rw fs (stays-insert cid x _ s.world.files h);
        unique = λ h. rw fs (NodupKeys-insert cid _ s.world.files h);
        grows = λ x h. h;
        settles = λ v h. inl h;
      }

  pub invalidate-NotApproved :
      (edited cid : String) (listed : Frontmatter) (cbody : Text) (w : World)
      → NotApproved (invalidate env edited cid listed cbody w) cid
  invalidate-NotApproved edited cid listed cbody w d e a =
      ground (arith, read-invalidate edited cid cid listed cbody w, (eq_iff cid cid).1 refl)
