-- ===== src/Executor/Reversal.antt =====
-- executor/rollback.py: which artifacts can be rolled back. Which characters `\w` matches is a
-- parameter.
use homepilot_core_public.Base.{
  ℕ, String, Bool, true, false, ◌&&◌, ◌||◌, Option, none, some, [], ◌∷◌, if◌then◌else◌, length,
}
use homepilot_core_public.Base.Text.{Text, codes, is_prefix, drop}
use homepilot_core_public.Artifacts.Model.{
  ArtifactKind, ansible_playbook, proxmox_api_sequence, http_sequence, shell_script, composite,
  host_provision,
}
use homepilot_core_public.Artifacts.Body.{is_space, is_newline, drop_start}

-- _ROLLBACK_FENCE_BY_KIND
abbrev pub rollback_fence : ArtifactKind → Option String
rollback_fence ansible_playbook = some "ansible-rollback"
rollback_fence proxmox_api_sequence = some "proxmox-api-rollback"
rollback_fence http_sequence = some "http-rollback"
rollback_fence shell_script = some "shell-rollback"
rollback_fence _ = none

-- _ALWAYS_REVERSIBLE
abbrev pub always_reversible : ArtifactKind → Bool
always_reversible composite = true
always_reversible host_provision = true
always_reversible _ = false

unfoldable pub kind_can_roll_back : ArtifactKind → Bool
kind_can_roll_back kind = elim (rollback_fence kind) [
  | none ↦ always_reversible kind
  | some _ ↦ true
]

-- "\s*$": white space up to a newline or the end.
unfoldable pub ends_line : Text → Bool
unfolding is_space
ends_line [] = true
ends_line (c ∷ t) = is_newline c || is_space c && ends_line t

abbrev pub starts : (ℕ → Bool) → Text → Bool
starts p [] = false
starts p (c ∷ t) = p c

module _ (is_word : ℕ → Bool) where
  -- "```\s*\w+\s+<fence>\s*$" at the start of a text. White space and word characters are disjoint,
  -- so that each run is the longest.
  unfoldable pub match_fence : String → Text → Bool
  unfolding is_prefix drop drop_start ends_line
  match_fence fence t =
      let word = drop_start is_space (drop 3 t) in
      let gap = drop_start is_word word in
      let tail = drop_start is_space gap in
      is_prefix (codes "```") t
      && starts is_word word
      && starts is_space gap
      && is_prefix (codes fence) tail
      && ends_line (drop (length (codes fence)) tail)

  -- The search for a line that the pattern matches; `line_start` says whether a line starts here.
  unfoldable pub search_fence : String → Bool → Text → Bool
  unfolding match_fence
  search_fence fence line_start [] = false
  search_fence fence line_start (c ∷ t) =
      let rest = search_fence fence (is_newline c) t in
      line_start && match_fence fence (c ∷ t) || rest

  unfoldable pub has_rollback_section : ArtifactKind → Text → Bool
  unfolding search_fence
  has_rollback_section kind body = elim (rollback_fence kind) [
    | none ↦ false
    | some fence ↦ search_fence fence true body
  ]

  unfoldable pub derive_rollback : ArtifactKind → Text → Bool
  unfolding has_rollback_section
  derive_rollback kind body =
      if always_reversible kind then true else has_rollback_section kind body
