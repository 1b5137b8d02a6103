-- ===== src/Artifacts/Transitions/Approve.antt =====
-- `approve`: what it checks, what it carries along, and what it leaves alone.
use homepilot_core_public.Base.{
  String, ◌≡◌, ap, ◌≢◌, ◌⊎◌, inl, inr, true, false, ◌&&◌, ◌||◌, Option, some, List, [], ◌∷◌, arith,
  ◌=ˢ◌, ◌∈ˢ◌, if◌then◌else◌, Bool-cases, eq_iff, All, All-map, subst,
}
use homepilot_core_public.Artifacts.Model.{
  proposed, approved, failed, is_composite, Error, out_of_fuel, ok, err, Result-cases,
}
use homepilot_core_public.Artifacts.Spec.{Step, extract_composite_steps}
use homepilot_core_public.Artifacts.World.{Doc, World, Env, read_file, approve}
use homepilot_core_public.Artifacts.World.Reads.{read_file-ne-out_of_fuel, status_at}
use homepilot_core_public.Artifacts.Cascade.{hash_matches, Found, composite_cascade, cascade_fuel}
use homepilot_core_public.Artifacts.Cascade.Sound.{
  Ensures, StepsIn, IsSound, composite_cascade-Ensures,
}
use homepilot_core_public.Artifacts.Transitions.{
  commit, nonempty, approved_frontmatter, approval_details, record_change, approve_checks,
  approve_artifact,
}
use homepilot_core_public.Artifacts.Transitions.Status.{
  is_proposed, status-record_change, status-approve_all,
}

module _ (env : Env) (id : String) (w : World) where
  -- What the cascade of `d` promises.
  abbrev FoundFor : Doc → Found → Type 0
  FoundFor d f =
      (is_composite d.fm.kind ≡ true → IsSound env w.files (id ∷ []) f × StepsIn env w.files f.1 d)
      × (is_composite d.fm.kind ≡ false → f ≡ ([], []))

  -- What the checks have established when they let the approval through.
  record Checked (d : Doc) (subs : List String) : Type 0 where
    reads : read_file w.files id ≡ ok d
    awaited : (d.fm.status ≡ proposed) ⊎ (d.fm.status ≡ failed)
    intact : hash_matches env d ≡ true
    found : Found
    cascaded : composite_cascade env w.files (cascade_fuel env w.files) id d [] ≡ ok found
    carried : found.0 ≡ subs

  approve_checks-Checked :
      {d : Doc} {subs : List String} → approve_checks env id w ≡ ok (d, subs) → Checked d subs
  unfolding approve_checks
  approve_checks-Checked {d} {subs} h = elim (Result-cases (read_file w.files id)) [
    | inl (e, r) ↦ absurd (ground arith)
    | inr (d', r) ↦
        elim (Result-cases (composite_cascade env w.files (cascade_fuel env w.files) id d' [])) [
          | inl (e, c) ↦ absurd (ground arith)
          | inr (f, c) ↦ record {
            reads = ground arith;
            awaited = ground arith;
            intact = ground arith;
            found = f;
            cascaded = ground arith;
            carried = ground arith;
          }
        ]
  ]

  approve_checks-ne-out_of_fuel : approve_checks env id w ≢ err out_of_fuel
  unfolding approve_checks
  approve_checks-ne-out_of_fuel h = elim (Result-cases (read_file w.files id)) [
    | inl (e, r) ↦ ground (arith, read_file-ne-out_of_fuel w.files id)
    | inr (d, r) ↦
        elim (Result-cases (composite_cascade env w.files (cascade_fuel env w.files) id d [])) [
          | inr (f, c) ↦ ground arith
          | inl (e, c) ↦
              let enough : e ≢ out_of_fuel =
                subst (Ensures (FoundFor d)) c (composite_cascade-Ensures env w.files id d r) in
              ground arith
        ]
  ]

  Checked-found : {d : Doc} {subs : List String} (k : Checked d subs) → FoundFor d k.found
  Checked-found {d} k =
      subst (Ensures (FoundFor d)) k.cascaded (composite_cascade-Ensures env w.files id d k.reads)

  -- A sub-artifact that is carried along stems from a composite.
  cascading :
      {d : Doc} {subs : List String} (k : Checked d subs) (x : String)
      → x ∈ˢ subs ≡ true
      → is_composite d.fm.kind ≡ true
  cascading {d} k x m = elim (Bool-cases (is_composite d.fm.kind)) [
    | inl c ↦ c
    | inr c ↦
        let nothing = (Checked-found k).1 c in
        absurd (ground (arith, ap (λ (f : Found). f.0) nothing, k.carried))
  ]

  carried-IsSound :
      {d : Doc} {subs : List String} (k : Checked d subs) (x : String)
      → x ∈ˢ subs ≡ true
      → IsSound env w.files (id ∷ []) k.found
  carried-IsSound k x m = ((Checked-found k).0 (cascading k x m)).0

  module _ (user : String) (reason role : Option String) where
    abbrev after : World
    after = (approve_artifact env id user reason role w).1

    -- Which artifacts an approval that goes through has approved.
    pub status-approve :
        {d : Doc} {subs : List String} (j : String)
        → approve_checks env id w ≡ ok (d, subs)
        → status_at after j ≡ (
            if id =ˢ j || j ∈ˢ subs && is_proposed (status_at w j)
            then some approved
            else status_at w j)
    unfolding approve_artifact
    status-approve {d} {subs} j h =
        let fm = approved_frontmatter user (env.now id) (nonempty role) (nonempty reason) d.fm in
        let info = approval_details (nonempty role) subs in
        let w' = record_change env id fm d.body approve "approve" (some user) info w in
        rw (h, after, commit)
          (ground (
            arith,
            status-approve_all env user reason role id subs j w',
            status-record_change env id j fm d.body approve "approve" (some user) info w,
          ))

    raised : {e : Error} → approve_checks env id w ≡ err e → after ≡ w
    unfolding approve_artifact
    raised c = rw (c, after, commit)

    -- An approval ends: whatever artifacts its composites list, in a circle too, its walk through them
    -- never runs out of fuel, which one more than the number of files has been.
    pub approve_ends : (approve_artifact env id user reason role w).0 ≢ err out_of_fuel
    unfolding approve_artifact
    approve_ends h = elim (Result-cases (approve_checks env id w)) [
      | inl (e', c) ↦ approve_checks-ne-out_of_fuel (ground arith)
      | inr (a, c) ↦ absurd (ground arith)
    ]

    -- The checks of an approval that went through.
    approved-checks :
        (approve_artifact env id user reason role w).0 ≡ ok tt
        → (d : Doc) × (subs : List String) × (approve_checks env id w ≡ ok (d, subs))
    unfolding approve_artifact
    approved-checks h = elim (Result-cases (approve_checks env id w)) [
      | inl (e', c) ↦ absurd (ground arith)
      | inr ((d, subs), c) ↦ (d, subs, c)
    ]

    -- An artifact whose status a call of approve changes had a file whose body matched its hash, was
    -- proposed (or failed, if it is the artifact named), and is approved after the call.
    pub approve_intact :
        (x : String)
        → status_at after x ≢ status_at w x
        → (d : Doc) × (read_file w.files x ≡ ok d)
          × ((d.fm.status ≡ proposed) ⊎ ((id ≡ x) × (d.fm.status ≡ failed)))
          × (hash_matches env d ≡ true)
          × (status_at after x ≡ some approved)
    approve_intact x changed = elim (Result-cases (approve_checks env id w)) [
      | inl (e, c) ↦ absurd (changed (rw (raised c)))
      | inr ((d, subs), c) ↦
          let k = approve_checks-Checked c in
          elim (Bool-cases (id =ˢ x)) [
            | inl same ↦ (
              d,
              cc (k.reads, (eq_iff id x).0 same),
              elim k.awaited [ inl p ↦ inl p | inr f ↦ inr ((eq_iff id x).0 same, f) ],
              k.intact,
              ground (arith, status-approve x c),
            )
            | inr other ↦ elim (Bool-cases (x ∈ˢ subs)) [
              | inl m ↦
                  let a = (carried-IsSound k x m).fit x (rw k.carried m) in
                  (
                    a.doc,
                    a.reads,
                    inl a.is_proposed,
                    a.intact,
                    ground (arith, status-approve x c, a.reads, a.is_proposed),
                  )
              | inr nm ↦ absurd (changed (ground (arith, status-approve x c)))
            ]
          ]
    ]

    -- The step names nothing, or an artifact that is approved.
    abbrev pub IsStepApproved : World → Step → Type 0
    IsStepApproved v s = (s.artifact ≡ "") ⊎ (status_at v s.artifact ≡ some approved)

    -- So is every step of the composite.
    abbrev StepsApproved : World → Doc → Type 0
    StepsApproved v d =
        (steps : List Step)
        → extract_composite_steps env.safe_load d.body ≡ ok steps
        → All (IsStepApproved v) steps

    -- Whatever the cascade has visited is approved in the end.
    visited-approved :
        {d : Doc} {subs : List String} (k : Checked d subs)
        → approve_checks env id w ≡ ok (d, subs)
        → is_composite d.fm.kind ≡ true
        → (x : String) → x ∈ˢ k.found.1 ≡ true
        → status_at after x ≡ some approved
    visited-approved k c composite x m =
        let sound = ((Checked-found k).0 composite).0 in
        elim (sound.covered x m) [
          | inl own ↦ ground (arith, status-approve x c, own)
          | inr (inl done) ↦ ground (arith, status-approve x c, done.1, done.2)
          | inr (inr carried) ↦
              let a = sound.fit x carried in
              ground (arith, status-approve x c, a.reads, a.is_proposed, k.carried)
        ]

    StepsIn-StepsApproved :
        {d : Doc} {subs : List String} (k : Checked d subs)
        → approve_checks env id w ≡ ok (d, subs)
        → is_composite d.fm.kind ≡ true
        → (e : Doc) → StepsIn env w.files k.found.1 e
        → StepsApproved after e
    StepsIn-StepsApproved k c composite e s steps eq =
        All-map (λ (t : Step). (t.artifact =ˢ "" || t.artifact ∈ˢ k.found.1) ≡ true)
          (IsStepApproved after)
          (λ t h. elim (Bool-cases (t.artifact =ˢ "")) [
            | inl empty ↦ inl ((eq_iff t.artifact "").0 empty)
            | inr named ↦ inr (visited-approved k c composite t.artifact (ground arith))
          ])
          steps (s steps eq)

    approved-closes :
        (approve_artifact env id user reason role w).0 ≡ ok tt
        → (x : String) (e : Doc) → read_file w.files x ≡ ok e
        → e.fm.status ≢ approved
        → status_at after x ≡ some approved
        → is_composite e.fm.kind ≡ true
        → StepsApproved after e
    approved-closes done x e reads fresh now_approved composite =
        let (d, subs, c) = approved-checks done in
        let k = approve_checks-Checked c in
        elim (Bool-cases (id =ˢ x)) [
          | inl same ↦
              let d-eq : d ≡ e = cc (k.reads, (eq_iff id x).0 same, reads) in
              let dc : is_composite d.fm.kind ≡ true = rw d-eq composite in
              subst (StepsApproved after) d-eq
                (StepsIn-StepsApproved k c dc d ((Checked-found k).0 dc).1)
          | inr other ↦ elim (Bool-cases (x ∈ˢ subs)) [
            | inl m ↦
                let sound = carried-IsSound k x m in
                StepsIn-StepsApproved k c (cascading k x m) e
                  (sound.closed x (rw k.carried m) e reads composite)
            | inr nm ↦ absurd (fresh (ground (arith, status-approve x c)))
          ]
        ]

    -- After an approval that goes through, take any artifact that was not approved before and is now.
    -- If it is a composite, then each step that its body lists names an artifact that is approved
    -- after the call, or names nothing.
    pub approve_closes :
        (approve_artifact env id user reason role w).0 ≡ ok tt
        → (x : String) (e : Doc) → read_file w.files x ≡ ok e
        → e.fm.status ≢ approved
        → status_at after x ≡ some approved
        → is_composite e.fm.kind ≡ true
        → (steps : List Step) → extract_composite_steps env.safe_load e.body ≡ ok steps
        → All (IsStepApproved after) steps
    approve_closes = approved-closes
