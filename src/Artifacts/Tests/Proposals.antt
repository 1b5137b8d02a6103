-- ===== src/Artifacts/Tests/Proposals.antt =====
-- Proposals: a shell script for a virtual machine, in an empty store.
use homepilot_core_public.Base.{
  ℕ, ◌≡◌, refl, Bool, true, false, none, some, [], ◌&&◌, leb, arith, eq_iff,
}
use homepilot_core_public.Base.Text.{codes}
use homepilot_core_public.Base.Dict.{lookup}
use homepilot_core_public.Artifacts.Model.{shell_script, approved, ok}
use homepilot_core_public.Artifacts.Spec.{other}
use homepilot_core_public.Artifacts.World.{World, Env}
use homepilot_core_public.Artifacts.Transitions.{approve_artifact}
use homepilot_core_public.Artifacts.Body.{has_return}
use homepilot_core_public.Artifacts.World.Reads.{status_at}
use homepilot_core_public.Artifacts.Id.{validate_artifact_id}
use homepilot_core_public.Artifacts.Propose.{propose_artifact}
use homepilot_core_public.Artifacts.Proposal.{Target, empty, given, Proposal, Checks, check_target}
use homepilot_core_public.Artifacts.Propose.Approvable.{propose-approve}

abbrev env : Env
env = record {
  hexdigest = λ t. "full";
  safe_load = λ t. other;
  has_db = true;
  db_works = λ id. true;
  now = λ id. "2025-01-01T00:00:00Z";
}

abbrev is_ascii_digit : ℕ → Bool
is_ascii_digit c = leb 48 c && leb c 57

abbrev checks : Checks
checks = record {
  is_decimal = is_ascii_digit;
  is_word = λ c. leb 97 c && leb c 122;
  parse_host_provision = λ t. none;
  parse_guest_network = λ t. none;
  literal_secrets = λ t. [];
  expression_errors = λ fm t. [];
}

abbrev guest : Target
guest = record {
  kind = "vm";
  host = none;
  vmid = some 100;
  node = some "pve";
  service = none;
  network = none;
}

abbrev script : Proposal
script = record {
  id = "2025-01-01-nginx";
  kind = "shell-script";
  body = codes "echo a\n";
  intent = "install";
  target = given guest;
  idempotence = "via-precheck";
  session = "s";
  agent = "assistant";
  user = "ada";
  rollback = none;
  replay_safe = none;
  requires_snapshot = some true;
}

abbrev nothing : World
nothing = record { files = []; mirror = []; codes = []; audit = []; commits = [] }

abbrev draws : ℕ → ℕ
draws n = 65

script_goes_through : (propose_artifact env checks draws script nothing).0 ≡ ok script.id
unfolding propose_artifact lookup
script_goes_through = refl

no_returns : has_return script.body ≡ false
unfolding has_return
no_returns = refl

propose-approve_example :
    status_at
      (approve_artifact env script.id "ada" none none
        (propose_artifact env checks draws script nothing).1).1
      script.id
    ≡ some approved
propose-approve_example =
    propose-approve env checks script draws nothing "ada" none none script_goes_through
      (λ q. absurd (ground (arith, (eq_iff "shell-script" "kb-note").1 q)))
      (λ q. absurd (ground (arith, (eq_iff "shell-script" "composite").1 q))) refl no_returns

-- An id with a newline behind it passes.
newline_passes : validate_artifact_id is_ascii_digit (codes "2025-01-01-nginx\n") ≡ true
unfolding validate_artifact_id
newline_passes = refl

-- A target without entries passes for a kind that must have one.
empty_passes : check_target shell_script empty ≡ ok tt
unfolding check_target
empty_passes = refl
