-- ===== src/Artifacts/Proposal.antt =====
-- What `validate_propose_spec` of artifacts/validator.py checks of a proposal's fields, each by
-- itself. A proposal is a record of what the dictionary holds, with the empty text for an absent
-- text. What other modules find in a body (the host-provision and guest-network specs, literal
-- secrets, expressions) are parameters, and so are the character classes of `re`.
use homepilot_core_public.Base.{
  ℕ, String, Bool, false, not, ◌&&◌, ◌||◌, Option, none, some, List, [], ◌∷◌, ◌=ˢ◌, ◌∈ˢ◌,
  if◌then◌else◌, is_some,
}
use homepilot_core_public.Base.Text.{Text, codes, is_infix}
use homepilot_core_public.Artifacts.Model.{
  ArtifactKind, ansible_playbook, proxmox_api_sequence, http_sequence, composite, shell_script,
  host_provision, guest_network, kb_note, is_kb_note, Idempotence, via_precheck, declared_natural,
  replay_only, Frontmatter, Flaw, invalid_kind, invalid_target, needs_target, needs_idempotence,
  invalid_idempotence, invalid_spec, no_steps, step_without_id, duplicate_step,
  step_without_artifact, refused_proposal, value_error, Result, ok, err, guard, ◌>>=◌,
}
use homepilot_core_public.Artifacts.Spec.{Step}

-- A `target` dictionary with a kind. Its values have the types of the fields of `Target`.
pub record Target : Type 0 where
  pub kind : String
  pub host : Option String
  pub vmid : Option ℕ
  pub node : Option String
  pub service : Option String
  pub network : Option String

-- `spec.get("target")`: nothing, an empty dictionary, or one with entries.
pub data GivenTarget : Type 0 where
  absent empty : GivenTarget
  given : Target → GivenTarget

pub record Proposal : Type 0 where
  pub id : String
  pub kind : String
  pub body : Text
  pub intent : String
  pub target : GivenTarget
  pub idempotence : String
  pub session : String
  pub agent : String
  pub user : String
  pub rollback : Option Bool
  pub replay_safe : Option Bool
  pub requires_snapshot : Option Bool

-- What other modules decide: the error that a spec's parser raises, if it does, the literal
-- secrets of a body, and whether its expressions are wrong.
pub record Checks : Type 0 where
  pub is_decimal : ℕ → Bool
  pub is_word : ℕ → Bool
  pub parse_host_provision : Text → Option Text
  pub parse_guest_network : Text → Option Text
  pub literal_secrets : Text → List String
  pub expression_errors : Frontmatter → Text → List String

abbrev pub flaw : {A : Type 0} → Flaw → Result A
flaw f = err (refused_proposal f)

-- `if not b: raise LifecycleError(...)`
abbrev pub require : Bool → Flaw → Result (Unit {0})
require b f = guard b (refused_proposal f)

-- `ArtifactKind(kind_str)`
unfoldable pub kind_of : String → Result ArtifactKind
kind_of k =
    if k =ˢ "ansible-playbook"
    then ok ansible_playbook
    else if k =ˢ "proxmox-api-sequence"
    then ok proxmox_api_sequence
    else if k =ˢ "http-sequence"
    then ok http_sequence
    else if k =ˢ "composite"
    then ok composite
    else if k =ˢ "shell-script"
    then ok shell_script
    else if k =ˢ "host-provision"
    then ok host_provision
    else if k =ˢ "guest-network"
    then ok guest_network
    else if k =ˢ "kb-note"
    then ok kb_note
    else flaw invalid_kind

-- `Idempotence(idempotence_str)`
abbrev pub idempotence_of : String → Result Idempotence
idempotence_of i =
    if i =ˢ "via-precheck"
    then ok via_precheck
    else if i =ˢ "declared-natural"
    then ok declared_natural
    else if i =ˢ "replay-only"
    then ok replay_only
    else flaw invalid_idempotence

-- `Target(**target_data)` and its `validate_sub_fields`.
unfoldable pub validate_target : Target → Bool
validate_target t =
    if t.kind =ˢ "vm" || t.kind =ˢ "lxc"
    then is_some t.vmid && is_some t.node
    else if t.kind =ˢ "node"
    then is_some t.node
    else if t.kind =ˢ "cluster"
    then not (is_some t.node)
    else if t.kind =ˢ "service"
    then is_some t.service
    else if t.kind =ˢ "network"
    then is_some t.network
    else t.kind =ˢ "global"

unfoldable pub check_target : ArtifactKind → GivenTarget → Result (Unit {0})
unfolding validate_target
check_target kind absent = require (is_kb_note kind) needs_target
check_target kind empty = ok tt
check_target kind (given t) = require (is_kb_note kind || validate_target t) invalid_target

-- The idempotence that is recorded where there is a target.
unfoldable pub check_idempotence : ArtifactKind → String → Result (Option Idempotence)
check_idempotence kind i =
    if is_kb_note kind
    then ok none
    else if i =ˢ ""
    then flaw needs_idempotence
    else idempotence_of i >>= λ mode. ok (some mode)

unfoldable pub check_steps : List String → List Step → Result (Unit {0})
check_steps seen [] = ok tt
check_steps seen (s ∷ steps) =
    let rest = check_steps (s.id ∷ seen) steps in
    if s.id =ˢ ""
    then flaw step_without_id
    else if s.id ∈ˢ seen
    then flaw duplicate_step
    else if s.artifact =ˢ ""
    then flaw step_without_artifact
    else rest

abbrev pub some_steps : Result (List Step) → Result (Unit {0})
some_steps (err value_error) = flaw invalid_spec
some_steps (err e) = err e
some_steps (ok []) = flaw no_steps
some_steps (ok (s ∷ steps)) = check_steps [] (s ∷ steps)

abbrev pub accepted : Option Text → Result (Unit {0})
accepted none = ok tt
accepted (some message) = flaw invalid_spec

-- A spec with a field missing is accepted.
abbrev pub accepted_partly : Option Text → Result (Unit {0})
accepted_partly none = ok tt
accepted_partly (some message) = require (is_infix (codes "is missing") message) invalid_spec

abbrev pub target_kind_of : GivenTarget → String
target_kind_of absent = ""
target_kind_of empty = ""
target_kind_of (given t) = t.kind

abbrev pub vmid_of : GivenTarget → Option ℕ
vmid_of (given t) = t.vmid
vmid_of _ = none

abbrev pub node_of : GivenTarget → Option String
node_of (given t) = t.node
node_of _ = none

-- `if target_data: fm["idempotence"] = ...`
abbrev pub recorded : GivenTarget → Option Idempotence → Option Idempotence
recorded (given t) mode = mode
recorded _ mode = none

abbrev pub claims : Option Bool → Bool
claims none = false
claims (some b) = b
