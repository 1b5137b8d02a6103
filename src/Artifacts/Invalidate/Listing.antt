-- ===== src/Artifacts/Invalidate/Listing.antt =====
-- `store.list` of the approved composites: it lists approved artifacts only, and every approved
-- composite.
use homepilot_core_public.Base.{
  String, ◌≡◌, refl, inl, inr, true, ◌&&◌, none, some, [], ◌∷◌, arith, ◌=ˢ◌, Bool-cases, eq_iff,
  All, All-map, subst,
}
use homepilot_core_public.Base.Dict.{Dict, lookup, NodupKeys}
use homepilot_core_public.Artifacts.Model.{approved, is_composite, ◌=ᵗ◌, eq_of_same, Frontmatter}
use homepilot_core_public.Artifacts.World.{Doc, list_composites}

abbrev pub Found : Dict Doc → String → Type 0
Found files c = (d : Doc) × (lookup c files ≡ some d) × (d.fm.status ≡ approved)

Found-cons :
    (k : String) (e : Doc) (files : Dict Doc) (c : String)
    → lookup k files ≡ none
    → Found files c
    → Found ((k, e) ∷ files) c
unfolding lookup
Found-cons k e files c new (d, l, a) = (d, ground (arith, eq_iff k c), a)

pub list_composites-Found :
    (files : Dict Doc)
    → NodupKeys files
    → All (λ c. Found files c.0) (list_composites approved files)
unfolding list_composites lookup
list_composites-Found [] u = tt
list_composites-Found ((k, e) ∷ files) u =
    let rest =
      All-map (λ c. Found files c.0) (λ (c : String × Frontmatter). Found ((k, e) ∷ files) c.0)
        (λ c h. Found-cons k e files c.0 u.0 h) (list_composites approved files)
        (list_composites-Found files u.1) in
    elim (Bool-cases (e.fm.status =ᵗ approved && is_composite e.fm.kind)) [
      | inr skipped ↦ rw skipped rest
      | inl listed ↦
          rw listed ((e, found k e files, eq_of_same e.fm.status approved (ground arith)), rest)
    ]
  where
    found : (k : String) (e : Doc) (files : Dict Doc) → lookup k ((k, e) ∷ files) ≡ some e
    found k e files = ground (arith, (eq_iff k k).1 refl)

pub list_composites-complete :
    (P : String → Type 0) (files : Dict Doc) (c : String) (d : Doc)
    → lookup c files ≡ some d
    → d.fm.status ≡ approved
    → is_composite d.fm.kind ≡ true
    → All (λ e. P e.0) (list_composites approved files)
    → P c
unfolding list_composites lookup
list_composites-complete P [] c d l a k all = absurd (ground arith)
list_composites-complete P ((j, e) ∷ files) c d l a k all = elim (Bool-cases (j =ˢ c)) [
  | inl same ↦
      let eq : e ≡ d = ground (arith, same) in
      let listed : (e.fm.status =ᵗ approved && is_composite e.fm.kind) ≡ true =
        ground (arith, eq) in
      let both = rw listed at all in subst P ((eq_iff j c).0 same) both.0
  | inr other ↦ elim (Bool-cases (e.fm.status =ᵗ approved && is_composite e.fm.kind)) [
    | inl listed ↦ list_composites-complete P files c d (ground arith) a k (rw listed at all).1
    | inr skipped ↦ list_composites-complete P files c d (ground arith) a k (rw skipped at all)
  ]
]
