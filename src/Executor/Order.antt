-- ===== src/Executor/Order.antt =====
-- `_topological_sort` of executor/composite_lib.py: a depth-first search whose sets `visited` and
-- `visiting` and list `order` are passed along. The recursion takes fuel: each call that goes deeper
-- has put one more step of the map into `visiting`.
pub mod Path
pub mod Sound
pub mod Acyclic
pub mod Ordered
pub mod Sorted
use homepilot_core_public.Base.{
  ℕ, zero, suc, String, Bool, true, false, Option, none, some, List, [], ◌∷◌, ◌++◌, ◌=ˢ◌, ◌∈ˢ◌,
  if◌then◌else◌, length,
}
use homepilot_core_public.Base.Dict.{Dict, lookup, insert}
use homepilot_core_public.Artifacts.Spec.{Step}

-- A result, or the `ValueError` that names a step of a circle.
pub data Visit {ℓ} (A : Type ℓ) : Type ℓ where
  done : A → Visit A
  circular : String → Visit A
  out_of_fuel : Visit A

infixl 5 ◌>>=◌
abbrev pub ◌>>=◌ {ℓ κ} : {A : Type ℓ} {B : Type κ} → Visit A → (A → Visit B) → Visit B
done state >>= next = next state
circular node >>= next = circular node
out_of_fuel >>= next = out_of_fuel

pub record Search : Type 0 where
  pub visited : List String
  pub visiting : List String
  pub order : List String

-- `step_map`, in which a later step takes the place of an earlier one with the same id.
unfoldable pub add_steps : List Step → Dict Step → Dict Step
add_steps [] map = map
add_steps (s ∷ steps) map = add_steps steps (insert s.id s map)

abbrev pub step_map : List Step → Dict Step
step_map steps = add_steps steps []

-- `visiting.discard(node)`
unfoldable pub discard : String → List String → List String
discard node [] = []
discard node (x ∷ xs) = let rest = discard node xs in if x =ˢ node then rest else x ∷ rest

abbrev pub enter : String → Search → Search
enter node s = record s { visiting = node ∷ s.visiting }

abbrev pub leave : String → Search → Search
leave node s = record {
  visited = node ∷ s.visited;
  visiting = discard node s.visiting;
  order = s.order ++ node ∷ [];
}

abbrev pub start : Search
start = record { visited = []; visiting = []; order = [] }

abbrev pub keys : Dict Step → List String
keys [] = []
keys ((k, _) ∷ rest) = k ∷ keys rest

module _ (map : Dict Step) where
  -- `deps.get(node, [])`
  abbrev pub deps_of : String → List String
  deps_of node = elim (lookup node map) [ none ↦ [] | some s ↦ s.depends_on ]

  -- `for dep in ...: visit(dep)`
  unfoldable pub visit_all : (String → Search → Visit Search) → List String → Search → Visit Search
  visit_all visit [] s = done s
  visit_all visit (x ∷ xs) s = visit x s >>= visit_all visit xs

  unfoldable pub visit : ℕ → String → Search → Visit Search
  unfolding visit_all discard
  visit zero node s = out_of_fuel
  visit (suc fuel) node s =
      let inner =
        visit_all (visit fuel) (deps_of node) (enter node s) >>= λ t. done (leave node t) in
      if node ∈ˢ s.visited then done s else if node ∈ˢ s.visiting then circular node else inner

  -- `[step_map[sid] for sid in order if sid in step_map]`
  unfoldable pub steps_of_order : List String → List Step
  steps_of_order [] = []
  steps_of_order (sid ∷ order) =
      let rest = steps_of_order order in elim (lookup sid map) [ none ↦ rest | some s ↦ s ∷ rest ]

  unfoldable pub search : Visit Search
  unfolding visit
  search = visit_all (visit (suc (length map))) (keys map) start

unfoldable pub topological_sort : List Step → Visit (List Step)
unfolding search steps_of_order add_steps
topological_sort steps =
    let map = step_map steps in search map >>= λ s. done (steps_of_order map s.order)
