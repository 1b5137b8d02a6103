-- ===== src/Artifacts/Cascade.antt =====
-- `_composite_cascade` of artifacts/transitions.py. The set `visited` is passed along and handed
-- back. The recursion takes fuel: each call that goes deeper has visited one more file of the store.
pub mod Sound
use homepilot_core_public.Base.{
  ℕ, zero, suc, String, Bool, false, ◌||◌, none, some, List, [], ◌∷◌, ◌++◌, ◌=ˢ◌, ◌∈ˢ◌,
  if◌then◌else◌, length,
}
use homepilot_core_public.Base.Dict.{Dict}
use homepilot_core_public.Artifacts.Model.{
  approved, proposed, is_composite, ◌=ᵗ◌, value_error, missing_step, step_status, step_hash,
  unreadable_spec, out_of_fuel, Result, ok, err, ◌>>=◌,
}
use homepilot_core_public.Artifacts.Body.{compute_body_hash}
use homepilot_core_public.Artifacts.Spec.{Step, extract_composite_steps}
use homepilot_core_public.Artifacts.World.{Doc, Env, read_file}

-- `compute_body_hash(body) == fm.get("hash")`
abbrev pub hash_matches : Env → Doc → Bool
hash_matches env d = elim d.fm.hash [
  | none ↦ false
  | some h ↦ compute_body_hash env.hexdigest d.body =ˢ h
]

-- `except ValueError`
abbrev readable : String → Result (List Step) → Result (List Step)
readable id (ok steps) = ok steps
readable id (err value_error) = err (unreadable_spec id)
readable id (err e) = err e

-- The ids to approve, and `visited` after the call.
abbrev pub Found : Type 0
Found = List String × List String

-- `out.append(sub_id)` before what the recursive call extends it by.
abbrev pub add_sub : String → Result Found → Result Found
add_sub sub (ok below) = ok (sub ∷ below.0, below.1)
add_sub sub (err e) = err e

-- What the read of a step's sub-artifact, new to `visited`, leads to. `deeper` is the call on it.
unfoldable pub after_read :
    Env → String → (Doc → List String → Result Found) → List String → Result Doc → Result Found
unfolding compute_body_hash
after_read env sub deeper visited (err e) = err (missing_step sub)
after_read env sub deeper visited (ok d) =
    if d.fm.status =ᵗ approved
    then ok ([], visited)
    else if d.fm.status =ᵗ proposed
    then (if hash_matches env d then add_sub sub (deeper d visited) else err (step_hash sub))
    else err (step_status sub d.fm.status)

module _ (env : Env) (files : Dict Doc) where
  unfoldable pub cascade_sub :
      (Doc → List String → Result Found) → String → List String → Result Found
  unfolding after_read
  cascade_sub deeper sub visited = after_read env sub deeper visited (read_file files sub)

  unfoldable pub cascade_step :
      (String → Doc → List String → Result Found) → String → List String → Result Found
  unfolding cascade_sub
  cascade_step deeper sub visited =
      if sub =ˢ "" || sub ∈ˢ visited
      then ok ([], visited)
      else cascade_sub (deeper sub) sub (sub ∷ visited)

  -- The loop over the steps.
  unfoldable pub cascade_steps :
      (String → Doc → List String → Result Found) → List Step → List String → Result Found
  unfolding cascade_step
  cascade_steps deeper [] visited = ok ([], visited)
  cascade_steps deeper (s ∷ steps) visited = cascade_step deeper s.artifact visited >>= λ first.
      cascade_steps deeper steps first.1 >>= λ rest. ok (first.0 ++ rest.0, rest.1)

  unfoldable pub composite_cascade : ℕ → String → Doc → List String → Result Found
  unfolding cascade_steps extract_composite_steps
  composite_cascade zero id d visited = err out_of_fuel
  composite_cascade (suc fuel) id d visited =
      let walk =
        λ (steps : List Step). cascade_steps (composite_cascade fuel) steps (id ∷ visited) in
      if is_composite d.fm.kind
      then (readable id (extract_composite_steps env.safe_load d.body) >>= walk)
      else ok ([], visited)

  -- The fuel that always suffices.
  abbrev pub cascade_fuel : ℕ
  cascade_fuel = suc (length files)
