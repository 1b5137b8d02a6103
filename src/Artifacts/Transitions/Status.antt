-- ===== src/Artifacts/Transitions/Status.antt =====
-- The statuses after the writes of a transition.
use homepilot_core_public.Base.{
  String, ◌≡◌, refl, ap, ◌∙◌, Bool, false, ◌&&◌, Option, none, some, List, [], ◌∷◌, arith, ◌=ˢ◌,
  ◌∈ˢ◌, if◌then◌else◌, eq_iff,
}
use homepilot_core_public.Base.Text.{Text}
use homepilot_core_public.Artifacts.Model.{
  ArtifactStatus, proposed, approved, ◌=ᵗ◌, Frontmatter, Result, ok, err,
}
use homepilot_core_public.Artifacts.World.{
  Doc, World, Env, Event, approve, Details, cascaded_from, read_file, write_file, log_audit,
}
use homepilot_core_public.Artifacts.World.Reads.{
  as_read, read-write, status_of, status_at, files-log_audit, files-sync_to_db,
  files-clear_approval_code,
}
use homepilot_core_public.Artifacts.Transitions.{
  approved_frontmatter, cascaded_reason, nonempty, record_change, carry, approve_cascaded,
  approve_all,
}

abbrev pub is_proposed : Option ArtifactStatus → Bool
is_proposed none = false
is_proposed (some s) = s =ᵗ proposed

module _ (env : Env) where
  -- Of the files a recorded change alters one: that of the artifact.
  pub read-record_change :
      (id j : String) (fm : Frontmatter) (body : Text) (e : Event) (action : String)
      (user : Option String) (info : Details) (w : World)
      → read_file (record_change env id fm body e action user info w).files j
        ≡ (if id =ˢ j then ok (as_read fm body) else read_file w.files j)
  unfolding record_change
  read-record_change id j fm body e action user info w =
      ap (λ files. read_file files j)
        (files-sync_to_db env id fm (log_audit env action id user info (write_file id fm body e w))
          ∙ files-log_audit env action id user info (write_file id fm body e w))
      ∙ read-write id j fm body e w

  pub status-record_change :
      (id j : String) (fm : Frontmatter) (body : Text) (e : Event) (action : String)
      (user : Option String) (info : Details) (w : World)
      → status_at (record_change env id fm body e action user info w) j
        ≡ (if id =ˢ j then some fm.status else status_at w j)
  status-record_change id j fm body e action user info w =
      rw (read-record_change id j fm body e action user info w) (ground arith)

  module _ (user : String) (reason role : Option String) (via : String) where
    pub status-approve_cascaded :
        (sub j : String) (w : World)
        → status_at (approve_cascaded env user reason role via sub w) j
          ≡ (if sub =ˢ j && is_proposed (status_at w j) then some approved else status_at w j)
    unfolding approve_cascaded
    status-approve_cascaded sub j w = go (read_file w.files sub) refl
      where
        go :
            (r : Result Doc)
            → read_file w.files sub ≡ r
            → status_at (carry env user reason role via sub r w) j
              ≡ (if sub =ˢ j && is_proposed (status_at w j) then some approved else status_at w j)
        go (err e) h = ground (arith, eq_iff sub j)
        go (ok d) h =
            let reason' = some (cascaded_reason (nonempty reason) via) in
            let fm = approved_frontmatter user (env.now sub) (nonempty role) reason' d.fm in
            let row = cascaded_from via in
            let w' = record_change env sub fm d.body approve "approve" (some user) row w in
            ground (
              arith,
              eq_iff sub j,
              ap (λ f. status_of (read_file f j)) (files-clear_approval_code env sub w'),
              status-record_change sub j fm d.body approve "approve" (some user) row w,
            )

    pub status-approve_all :
        (subs : List String) (j : String) (w : World)
        → status_at (approve_all env user reason role via subs w) j
          ≡ (if j ∈ˢ subs && is_proposed (status_at w j) then some approved else status_at w j)
    unfolding approve_all
    status-approve_all [] j w = refl
    status-approve_all (s ∷ subs) j w = ground (
      arith,
      status-approve_all subs j (approve_cascaded env user reason role via s w),
      status-approve_cascaded s j w,
    )
