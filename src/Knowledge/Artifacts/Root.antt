-- ===== src/Knowledge/Artifacts/Root.antt =====
-- validate_artifact_root and its helpers in kb_mcp/adapters/filesystem_artifact_store.py. pathlib is
-- an argument: how a path is made from a text and shown, whether it is absolute, what it resolves to
-- (`none` where resolving raises), and its parts, the first of them the drive. `lower` is str.lower,
-- and `detected` what the search for .git upward from the source file finds.
use superoffice_ai_support_m.Common.{
  Bool, true, false, not, ◌&&◌, ◌||◌, Option, none, some, List, [], ◌∷◌, map, Text, codes, text_eq,
  member, strip, is_empty, leb, length, drop, ◌==◌, contains, starts_with, Result, ok, err,
  if◌then◌else◌,
}
use superoffice_ai_support_m.Knowledge.Artifacts.Store.{
  ArtifactError, root_not_configured, root_invalid,
}

pub data RootSetting (P : Type 0) : Type 0 where
  unset : RootSetting P
  as_text : Text → RootSetting P
  as_path : P → RootSetting P

-- path.is_relative_to(base) on the parts, which also holds where the two are equal or base is among
-- path.parents.
unfoldable pub is_relative_to : List Text → List Text → Bool
is_relative_to path [] = true
is_relative_to [] (b ∷ base) = false
is_relative_to (p ∷ path) (b ∷ base) = text_eq p b && is_relative_to path base

-- s.replace("\\", "/")
unfoldable pub forward_slashes : Text → Text
forward_slashes s = map (λ c. if c == b'\\' then b'/' else c) s

module _ {P : Type 0} (of_text : Text → P) (show : P → Text) (is_absolute : P → Bool)
    (resolve : P → Option P) (parts : P → List Text) (lower : Text → Text) where
  unfoldable pub normalize_resolved_path : P → P
  unfolding starts_with
  normalize_resolved_path path =
      if starts_with (show path) (codes "\\\\?\\") || starts_with (show path) (codes "//?/")
      then of_text (drop 4 (show path))
      else path

  unfoldable pub in_scratch : P → Bool
  unfolding contains forward_slashes
  in_scratch path =
      member (codes "scratch") (map lower (parts path))
      || contains (forward_slashes (lower (show path))) (codes "antigravity-ide/scratch")

  -- A root that does not resolve is passed over.
  unfoldable pub in_git_tree : Option P → P → Bool
  unfolding normalize_resolved_path is_relative_to
  in_git_tree none path = false
  in_git_tree (some git_root) path = elim (resolve git_root) [
    | none ↦ false
    | some found ↦ is_relative_to (parts path) (parts (normalize_resolved_path found))
  ]

  unfoldable pub effective_git_root : Option P → Option P → Option P
  effective_git_root none detected = detected
  effective_git_root (some git_root) detected = some git_root

  -- The rejections of a resolved root.
  unfoldable pub check_resolved : Option P → P → Result ArtifactError P
  unfolding in_scratch in_git_tree
  check_resolved git_root resolved =
      if leb (length (parts resolved)) 1
      then err root_invalid
      else if in_scratch resolved
      then err root_invalid
      else if in_git_tree git_root resolved
      then err root_invalid
      else ok resolved

  unfoldable pub check_candidate : P → Option P → Option P → Result ArtifactError P
  unfolding normalize_resolved_path check_resolved effective_git_root
  check_candidate candidate git_root detected =
      if not (is_absolute candidate) then err root_invalid else elim (resolve candidate) [
        | none ↦ err root_invalid
        | some found ↦
            check_resolved (effective_git_root git_root detected) (normalize_resolved_path found)
      ]

  unfoldable pub validate_artifact_root :
      RootSetting P → Option P → Option P → Result ArtifactError P
  unfolding check_candidate
  validate_artifact_root unset git_root detected = err root_not_configured
  validate_artifact_root (as_text root) git_root detected =
      let cleaned = strip root in
      if is_empty cleaned
      then err root_not_configured
      else check_candidate (of_text cleaned) git_root detected
  validate_artifact_root (as_path root) git_root detected = check_candidate root git_root detected
