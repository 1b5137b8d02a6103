-- ===== src/Hub/Auth/Enrolment.antt =====
-- Who joins with the fleet's shared token, and who is refused.
use homepilot_core_public.Base.{
  ℕ, String, ◌≡◌, refl, ◌∙◌, ◌≢◌, ◌⊎◌, inl, inr, true, false, some, [], ◌∷◌, arith, ◌=ˢ◌,
  Option-cases, eq_iff,
}
use homepilot_core_public.Base.Dict.{Dict, lookup}
use homepilot_core_public.Hub.Agents.{AgentRow, agent_hostname_known}
use homepilot_core_public.Hub.Window.{is_open}
use homepilot_core_public.Hub.Auth.{
  Repo, Hub, Register, shared, credential_revoked, accepted, denied, enrolment_allowed, holder,
  holder_verdict, verify_enrolment, verify_credential, verify_auth,
}

module _ (hash_token : String → String) (now : ℕ) (hub : Hub) (request : Register) where
  enrolment-shared :
      (verify_enrolment hash_token now hub request).0 ≡ accepted shared
      → (request.auth_token ≡ hub.auth_token)
        × (enrolment_allowed now hub.repo request.hostname ≡ true)
  unfolding verify_enrolment
  enrolment-shared h = (ground (arith, eq_iff request.auth_token hub.auth_token), ground arith)

  -- Who is accepted by the shared token has it, and has leave to join.
  credential-shared :
      (repo : Repo)
      → (verify_credential hash_token now hub repo request).0 ≡ accepted shared
      → (verify_enrolment hash_token now hub request).0 ≡ accepted shared
  unfolding verify_credential holder_verdict
  credential-shared repo h = ground arith

  auth-shared :
      (verify_auth hash_token now hub request).0 ≡ accepted shared
      → (verify_enrolment hash_token now hub request).0 ≡ accepted shared
  unfolding verify_auth
  auth-shared h = elim (Option-cases hub.repo) [
    | inl bare ↦ ground arith
    | inr (repo, e) ↦ ground (arith, credential-shared repo)
  ]

  -- Where there is a repository, a register that is accepted by the fleet's shared token presented that
  -- token, and the table of agents is empty, or the host name is one that it has, or the enrolment
  -- window is open.
  pub shared_needs_leave :
      (repo : Repo)
      → hub.repo ≡ some repo
      → (verify_auth hash_token now hub request).0 ≡ accepted shared
      → (request.auth_token ≡ hub.auth_token)
        × ((repo.agents ≡ [])
            ⊎ ((agent_hostname_known repo.agents request.hostname ≡ true)
                ⊎ (is_open now repo.enrolment_window ≡ true)))
  unfolding enrolment_allowed
  shared_needs_leave repo e h =
      let (token, allowed) = enrolment-shared (auth-shared h) in
      (token, leave repo.agents (rw e at allowed))
    where
      leave :
          (agents : Dict AgentRow)
          → enrolment_allowed now (some (record repo { agents = agents })) request.hostname ≡ true
          → (agents ≡ [])
            ⊎ ((agent_hostname_known agents request.hostname ≡ true)
                ⊎ (is_open now repo.enrolment_window ≡ true))
      leave [] h = inl refl
      leave (a ∷ agents) h = inr (ground arith)

  held_revoked :
      (repo : Repo) (row : AgentRow)
      → holder (hash_token request.auth_token) (lookup request.agent_id repo.agents) ≡ some row
      → row.revoked ≡ true
      → verify_credential hash_token now hub repo request ≡ (denied credential_revoked, hub)
  unfolding verify_credential holder_verdict
  held_revoked repo row held r = ground arith

  pub auth-credential :
      (repo : Repo)
      → hub.repo ≡ some repo
      → request.auth_token ≢ ""
      → request.agent_id ≢ ""
      → verify_auth hash_token now hub request ≡ verify_credential hash_token now hub repo request
  unfolding verify_auth
  auth-credential repo e token id =
      let named : (request.agent_id =ˢ "") ≡ false = ground (arith, eq_iff request.agent_id "") in
      let given : (request.auth_token =ˢ "") ≡ false =
        ground (arith, eq_iff request.auth_token "") in
      ground (arith, given, named, e)

  -- Where there is a repository, a register whose agent id has a row with the hash of the register's
  -- token as credential is refused when that row is revoked, whatever else the hub would accept, and
  -- the hub stays as it was. (The token, its hash and the id are not empty.)
  pub revoked_refused :
      (repo : Repo) (row : AgentRow)
      → hub.repo ≡ some repo
      → lookup request.agent_id repo.agents ≡ some row
      → row.credential_hash ≡ some (hash_token request.auth_token)
      → row.revoked ≡ true
      → request.auth_token ≢ ""
      → request.agent_id ≢ ""
      → hash_token request.auth_token ≢ ""
      → verify_auth hash_token now hub request ≡ (denied credential_revoked, hub)
  revoked_refused repo row e l c r token id h =
      let held : holder (hash_token request.auth_token) (lookup request.agent_id repo.agents)
          ≡ some row =
        rw (l, c)
          (ground (
            arith,
            eq_iff (hash_token request.auth_token) "",
            eq_iff (hash_token request.auth_token) (hash_token request.auth_token),
          )) in
      auth-credential repo e token id ∙ held_revoked repo row held r
