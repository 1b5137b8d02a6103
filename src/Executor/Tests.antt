-- ===== src/Executor/Tests.antt =====
-- Runs of a composite whose step `app` needs its step `db`, over a store of statuses.
mod Orchestrated
use homepilot_core_public.Base.{
  String, ◌≡◌, refl, ◌⊎◌, true, false, none, List, [], ◌∷◌, ◌∈ˢ◌, arith, eq_iff, All,
}
use homepilot_core_public.Base.Text.{Text, codes}
use homepilot_core_public.Base.Dict.{Dict, lookup, insert}
use homepilot_core_public.Artifacts.Model.{ArtifactStatus, approved, applied, revoked, ok}
use homepilot_core_public.Artifacts.Spec.{Step, Loaded, steps, extract_composite_steps}
use homepilot_core_public.Executor.Order.{done, circular, step_map, topological_sort}
use homepilot_core_public.Executor.Order.Path.{Leads}
use homepilot_core_public.Executor.Order.Sorted.{topological_sort_decides}
use homepilot_core_public.Executor.Order.Ordered.{IsOrdered, ids_of}
use homepilot_core_public.Executor.Composite.{
  success, outcome, Orchestrator, Report, succeeds, reversed, execute,
}
use homepilot_core_public.Executor.Composite.Turns.{
  was_applied, is_applied, Ran, ran_none, ran_step,
}
use homepilot_core_public.Executor.Composite.Runs.{execute-Ran, Ran-execute}
use homepilot_core_public.Executor.Composite.Rollback.{Undone, execute-Undone}

abbrev app : Step
app = record { id = "app"; artifact = "unit_app"; on_error = "halt"; depends_on = "db" ∷ [] }

abbrev db : Step
db = record { id = "db"; artifact = "unit_db"; on_error = "continue"; depends_on = [] }

abbrev two_steps : List Step
two_steps = app ∷ db ∷ []

abbrev behind : List Step
behind = db ∷ app ∷ []

two_steps_sorted : topological_sort two_steps ≡ done behind
unfolding topological_sort insert lookup
two_steps_sorted = refl

abbrev looped : List Step
looped = app ∷ record db { depends_on = "app" ∷ [] } ∷ []

looped_circular : topological_sort looped ≡ circular "app"
unfolding topological_sort insert lookup
looped_circular = refl

topological_sort_decides_example :
    ((out : List Step) × (topological_sort two_steps ≡ done out)
      × ((n : String) → ¬ Leads (step_map two_steps) n n))
    ⊎ ((n : String) × (topological_sort two_steps ≡ circular n) × Leads (step_map two_steps) n n)
topological_sort_decides_example = topological_sort_decides two_steps

abbrev Statuses : Type 0
Statuses = Dict ArtifactStatus

abbrev statuses : Orchestrator Statuses
statuses = record {
  status = λ w id. lookup id w;
  apply = λ id w. (success, insert id applied w);
  revoke = λ id w. (outcome true "undone", insert id revoked w);
}

abbrev before : Statuses
before = ("unit_app", approved) ∷ ("unit_db", applied) ∷ []

abbrev after : Statuses
after = ("unit_app", applied) ∷ ("unit_db", applied) ∷ []

abbrev loads : Text → Loaded
loads t = steps two_steps

abbrev body : Text
body = codes "```yaml composite-spec\nsteps: []\n```\n"

body_steps : extract_composite_steps loads body ≡ ok two_steps
unfolding extract_composite_steps
body_steps = refl

abbrev after_log : Report
after_log = record {
  execution_log =
      "[db] applying sub-artifact unit_db" ∷ "[db] already applied, skipping"
      ∷ "[app] applying sub-artifact unit_app" ∷ "[app] OK" ∷ [];
  failure_reason = none;
}

run_of_two : execute statuses loads false body before ≡ (ok after_log, after)
unfolding execute insert lookup
run_of_two = refl

behind-Ran : Ran statuses behind before after
unfolding lookup insert
behind-Ran =
    ran_step db (app ∷ []) before before after
      (λ q. absurd (ground (arith, (eq_iff "unit_db" "").1 q))) (was_applied refl)
      (ran_step app [] before after after (λ q. absurd (ground (arith, (eq_iff "unit_app" "").1 q)))
        (is_applied approved refl (λ q. absurd (cc q)) refl) (ran_none after))

execute-Ran_example :
    (ordered : List Step) × IsOrdered (step_map two_steps) [] ordered
    × All (λ s. s.id ∈ˢ ids_of ordered ≡ true) two_steps
    × Ran statuses ordered before (execute statuses loads false body before).1
unfolding execute insert lookup
execute-Ran_example =
    execute-Ran statuses loads body before two_steps after_log body_steps refl refl

Ran-execute_example :
    (r : Report) × (execute statuses loads false body before ≡ (ok r, after)) × (succeeds r ≡ true)
Ran-execute_example =
    Ran-execute statuses loads body before after app (db ∷ []) behind body_steps two_steps_sorted
      behind-Ran

abbrev undone_log : Report
undone_log = record {
  execution_log =
      "[app] rollback sub-artifact unit_app" ∷ "[app] reversed: undone"
      ∷ "[db] rollback sub-artifact unit_db" ∷ "[db] reversed: undone" ∷ [];
  failure_reason = none;
}

execute-Undone_example :
    (ordered : List Step) × (topological_sort two_steps ≡ done ordered)
    × Undone statuses after (reversed ordered) after (execute statuses loads true body after).1
unfolding execute insert lookup
execute-Undone_example =
    execute-Undone statuses loads body after two_steps undone_log body_steps refl refl

-- A composite of a step that is missing and may go on is reported as run, and does nothing.
abbrev nothing : Statuses
nothing = []

missing_runs : (execute statuses (λ t. steps (db ∷ [])) false body nothing) ≡ (
  ok (record {
    execution_log =
        "[db] applying sub-artifact unit_db" ∷ "[db] sub-artifact unit_db not found" ∷ [];
    failure_reason = none;
  }),
  nothing,
)
unfolding execute insert lookup
missing_runs = refl
