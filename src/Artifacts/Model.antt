-- ===== src/Artifacts/Model.antt =====
-- artifacts/models.py: the enumerations, the frontmatter and the table of transitions, and
-- `validate_transition` of artifacts/validator.py. A frontmatter is what a well-formed file holds;
-- its fields that no modelled operation reads (produced_by, tags, supersedes) are left out.
use homepilot_core_public.Base.{
  ℕ, String, ◌≡◌, refl, ◌⊎◌, inl, inr, arith, Bool, true, false, Option, List, [], ◌∷◌, ◌||◌, ◌==◌,
  if◌then◌else◌,
}

pub data ArtifactKind : Type 0 where
  ansible_playbook proxmox_api_sequence http_sequence composite : ArtifactKind
  shell_script host_provision guest_network kb_note : ArtifactKind

pub data ArtifactStatus : Type 0 where
  proposed approved rejected applied failed superseded revoked : ArtifactStatus

pub data Idempotence : Type 0 where
  via_precheck declared_natural replay_only : Idempotence

-- `kind == ArtifactKind.COMPOSITE`
abbrev pub is_composite : ArtifactKind → Bool
is_composite composite = true
is_composite _ = false

abbrev pub is_kb_note : ArtifactKind → Bool
is_kb_note kb_note = true
is_kb_note _ = false

abbrev pub rank : ArtifactStatus → ℕ
rank proposed = 0
rank approved = 1
rank rejected = 2
rank applied = 3
rank failed = 4
rank superseded = 5
rank revoked = 6

-- Equality of two statuses.
infix 50 ◌=ᵗ◌
abbrev pub ◌=ᵗ◌ : ArtifactStatus → ArtifactStatus → Bool
s =ᵗ t = rank s == rank t

-- `{"user": ..., "at": ..., "role": ..., "reason": ...}`
pub record Decision : Type 0 where
  pub user : String
  pub at : String
  pub role : Option String
  pub reason : Option String

pub record Frontmatter : Type 0 where
  pub id : String
  pub kind : ArtifactKind
  pub intent : String
  pub status : ArtifactStatus
  pub mutating : Bool
  pub hash : Option String
  pub idempotence : Option Idempotence
  pub target_kind : String
  pub target_vmid : Option ℕ
  pub target_node : Option String
  pub rollback : Bool
  pub replay_safe : Option Bool
  pub requires_snapshot : Option Bool
  pub approved_by : Option Decision
  pub applied_at : Option String
  pub failed_at : Option String
  pub failure_reason : Option String
  pub superseded_by : Option String
  pub rejected_by : Option Decision
  pub revoked_by : Option Decision

-- VALID_TRANSITIONS
unfoldable pub valid_transitions : ArtifactStatus → List ArtifactStatus
valid_transitions proposed = approved ∷ rejected ∷ proposed ∷ []
valid_transitions approved = applied ∷ failed ∷ revoked ∷ []
valid_transitions failed = approved ∷ revoked ∷ []
valid_transitions applied = superseded ∷ revoked ∷ []
valid_transitions rejected = []
valid_transitions superseded = []
valid_transitions revoked = []

-- `target in allowed`
abbrev pub allows : List ArtifactStatus → ArtifactStatus → Bool
allows [] t = false
allows (s ∷ allowed) t = s =ᵗ t || allows allowed t

-- What `validate_propose_spec` finds wrong with a proposal.
pub data Flaw : Type 0 where
  invalid_id already_exists invalid_kind empty_body invalid_target needs_target : Flaw
  needs_idempotence invalid_idempotence invalid_intent needs_producer : Flaw
  invalid_spec no_steps step_without_id duplicate_step step_without_artifact : Flaw
  irreversible_kind no_rollback_section no_snapshot literal_credential bad_expression : Flaw

-- What an operation raises, by the place that raises it.
pub data Error : Type 0 where
  not_found : String → Error
  conflict : ArtifactStatus → ArtifactStatus → Error
  hash_mismatch : String → Error
  terminal_edit : ArtifactStatus → Error
  unreadable_spec : String → Error
  missing_step : String → Error
  step_status : String → ArtifactStatus → Error
  step_hash : String → Error
  refused_proposal : Flaw → Error
  value_error yaml_error out_of_fuel : Error

-- What an operation returns, or what it raises.
pub data Result {ℓ} (A : Type ℓ) : Type ℓ where
  err : Error → Result A
  ok : A → Result A

-- An early exit: `if not b: raise e`.
abbrev pub guard : Bool → Error → Result (Unit {0})
guard false reason = err reason
guard true reason = ok tt

infixl 5 ◌>>=◌ ◌>>◌
abbrev pub ◌>>=◌ {ℓ κ} : {A : Type ℓ} {B : Type κ} → Result A → (A → Result B) → Result B
err reason >>= next = err reason
ok value >>= next = next value

-- `validate_transition`
unfoldable pub validate_transition : ArtifactStatus → ArtifactStatus → Result (Unit {0})
unfolding valid_transitions
validate_transition current target =
    if allows (valid_transitions current) target then ok tt else err (conflict current target)

-- One statement behind another.
abbrev pub ◌>>◌ {ℓ} : {B : Type ℓ} → Result (Unit {0}) → Result B → Result B
first >> second = first >>= λ _. second

-- The test is equality.
pub eq_of_same : (s t : ArtifactStatus) → s =ᵗ t ≡ true → s ≡ t
eq_of_same s t h = ground arith

pub Result-cases :
    {A : Type 0} (r : Result A) → ((e : Error) × (r ≡ err e)) ⊎ ((a : A) × (r ≡ ok a))
Result-cases (err e) = inl (e, refl)
Result-cases (ok a) = inr (a, refl)
