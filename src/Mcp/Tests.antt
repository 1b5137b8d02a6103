-- ===== src/Mcp/Tests.antt =====
-- Calls of the approval tool on a proposed artifact with a stored code.
use homepilot_core_public.Base.{◌≡◌, ◌≤◌, ◌⊎◌, refl, true, false, none, some, List, [], ◌∷◌}
use homepilot_core_public.Base.Text.{codes, Text}
use homepilot_core_public.Base.Dict.{lookup, insert}
use homepilot_core_public.Artifacts.Model.{shell_script, proposed, Frontmatter}
use homepilot_core_public.Artifacts.Body.{drop_end}
use homepilot_core_public.Artifacts.Spec.{other, strip}
use homepilot_core_public.Artifacts.World.{Env}
use homepilot_core_public.Artifacts.Codes.{fresh_row}
use homepilot_core_public.Mcp.Approve.{Server, handle_approve_artifact}
use homepilot_core_public.Mcp.Approve.Guard.{IsRefused, IsGranted, handle_approve-guarded}
use homepilot_core_public.Mcp.Approve.Attempts.{Call, guesses_left, wrong_guesses, wrong_guesses-le}

abbrev env : Env
env = record {
  hexdigest = λ t. "full";
  safe_load = λ t. other;
  has_db = true;
  db_works = λ id. true;
  now = λ id. "2025-01-01T00:00:00Z";
}

abbrev fm : Frontmatter
fm = record {
  id = "unit";
  kind = shell_script;
  intent = "install";
  status = proposed;
  mutating = true;
  hash = some "sha256:full";
  idempotence = none;
  target_kind = "host";
  target_vmid = none;
  target_node = none;
  rollback = false;
  replay_safe = none;
  requires_snapshot = none;
  approved_by = none;
  applied_at = none;
  failed_at = none;
  failure_reason = none;
  superseded_by = none;
  rejected_by = none;
  revoked_by = none;
}

abbrev server : Server
server = record {
  world = record {
    files = ("unit", record { fm = fm; body = codes "echo a\n" }) ∷ [];
    mirror = [];
    codes = ("unit", fresh_row (codes "ABCDEFGHJK")) ∷ [];
    audit = [];
    commits = [];
  };
  calls = [];
}

abbrev guess : Call
guess = record { now = 1; caller = "mcp"; artifact = "unit"; code = some (codes "AAAAA-AAAAA") }

abbrev guesses : List Call
guesses = guess ∷ guess ∷ guess ∷ guess ∷ guess ∷ guess ∷ []

-- Six guesses: five are compared with the code, and the sixth meets the lock.
five_told : wrong_guesses env "unit" guesses server ≡ 5
unfolding wrong_guesses lookup strip drop_end insert
five_told = refl

wrong_guesses-le_example :
    wrong_guesses env "unit" guesses server ≤ guesses_left (lookup "unit" server.world.codes)
wrong_guesses-le_example = wrong_guesses-le env "unit" guesses server refl

abbrev relayed : Text
relayed = codes "abcde-fghjk"

handle_approve-guarded_example :
    IsRefused server.world
      (handle_approve_artifact env 1 "mcp" "unit" (some relayed) server).0
      (handle_approve_artifact env 1 "mcp" "unit" (some relayed) server).1.world
    ⊎ IsGranted env "unit"
        (some relayed)
        server.world
        (handle_approve_artifact env 1 "mcp" "unit" (some relayed) server).1.world
handle_approve-guarded_example = handle_approve-guarded env 1 "mcp" "unit" (some relayed) server
