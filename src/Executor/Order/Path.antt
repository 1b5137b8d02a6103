-- ===== src/Executor/Order/Path.antt =====
-- Chains of dependencies.
use homepilot_core_public.Base.{String, ◌≡◌, inl, inr, true, List, [], ◌∷◌, ◌∈ˢ◌, ∈-cases, subst}
use homepilot_core_public.Base.Dict.{Dict}
use homepilot_core_public.Artifacts.Spec.{Step}
use homepilot_core_public.Executor.Order.{deps_of}

module _ (map : Dict Step) where
  -- A chain of steps, at least one, each of which lists the next as a dependency.
  pub data Leads (x : String) : String → Type 0 where
    one : (y : String) → y ∈ˢ deps_of map x ≡ true → Leads x y
    then_one : (y z : String) → Leads x y → z ∈ˢ deps_of map y ≡ true → Leads x z

  -- The nodes that are being visited: each is a dependency of the one below it.
  abbrev pub IsChain : String → List String → Type 0
  IsChain node [] = Unit
  IsChain node (m ∷ visiting) = (node ∈ˢ deps_of map m ≡ true) × IsChain m visiting

  pub IsChain-Leads :
      (node x : String) (visiting : List String)
      → IsChain node visiting
      → x ∈ˢ visiting ≡ true
      → Leads x node
  IsChain-Leads node x [] chain h = absurd (cc)
  IsChain-Leads node x (m ∷ visiting) (link, chain) h = elim (∈-cases x m visiting h) [
    | inl same ↦ subst (λ k. Leads k node) same (one node link)
    | inr below ↦ then_one m node (IsChain-Leads m x visiting chain below) link
  ]
