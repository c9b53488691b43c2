-- ===== src/Knowledge/Artifacts/Places.antt =====
-- Which roots validate_artifact_root of kb_mcp/adapters/filesystem_artifact_store.py returns.
use superoffice_ai_support_m.Common.{
  ◌≡◌, ◌≢◌, refl, sym, ap, subst, ◌∙◌, Bool, true, false, Option, none, some, List, [], ◌∷◌, ◌++◌,
  map, Text, codes, text_eq_iff, text_eq_refl, member, contains, starts_with, strip,
  starts_with_append, starts_with_split, drop, ◌⊎◌, is_empty, leb, length, ◌==◌, ok, if◌then◌else◌,
  arith, ◌<◌, All, Bool-cases, Option-cases, not_leb→lt, inl, inr,
}
use superoffice_ai_support_m.Knowledge.Artifacts.Root.{
  RootSetting, unset, as_text, as_path, is_relative_to, forward_slashes, normalize_resolved_path,
  in_scratch, in_git_tree, effective_git_root, check_resolved, check_candidate,
  validate_artifact_root,
}

-- One list does not begin with the other.
abbrev pub Apart : List Text → List Text → Type 0
Apart path base = (tail : List Text) → path ≢ base ++ tail

is_relative_to_append : (base tail : List Text) → is_relative_to (base ++ tail) base ≡ true
unfolding is_relative_to
is_relative_to_append [] tail = refl
is_relative_to_append (b ∷ base) tail = rw (text_eq_refl b, is_relative_to_append base tail) refl

is_relative_to-Apart : (path base : List Text) → is_relative_to path base ≡ false → Apart path base
is_relative_to-Apart path base outside tail same =
    let k : is_relative_to path base ≡ true = rw same (is_relative_to_append base tail) in
    absurd (ground (arith, outside, k))

-- What stands in a text is found there.
contains_append : (before token after : Text) → contains (before ++ (token ++ after)) token ≡ true
unfolding contains
contains_append [] [] [] = unfold starts_with in refl
contains_append [] [] (c ∷ after) = unfold starts_with in refl
contains_append [] (c ∷ token) after = rw (starts_with_append (c ∷ token) after) refl
contains_append (c ∷ before) token after = ground (arith, contains_append before token after)

forward_slashes_append :
    (s t : Text) → forward_slashes (s ++ t) ≡ forward_slashes s ++ forward_slashes t
unfolding forward_slashes
forward_slashes_append [] t = refl
forward_slashes_append (c ∷ s) t =
    ap {B = Text} (λ rest. (if c == b'\\' then b'/' else c) ∷ rest) (forward_slashes_append s t)

-- The token does not stand in the text.
abbrev pub Lacks : Text → Text → Type 0
Lacks s token = (before after : Text) → s ≢ before ++ (token ++ after)

-- A token with either slash is not in a text if the one with forward slashes is not found.
contains-Lacks :
    (s token : Text) → contains (forward_slashes s) (forward_slashes token) ≡ false → Lacks s token
contains-Lacks s token missing before after same =
    let e : forward_slashes s
        ≡ forward_slashes before ++ (forward_slashes token ++ forward_slashes after) =
      ap forward_slashes same
      ∙ (forward_slashes_append before (token ++ after)
          ∙ ap (λ rest. forward_slashes before ++ rest) (forward_slashes_append token after)) in
    let k : contains (forward_slashes s) (forward_slashes token) ≡ true =
      rw e (
        contains_append (forward_slashes before) (forward_slashes token) (forward_slashes after)) in
    absurd (ground (arith, missing, k))

module _ {P : Type 0} (of_text : Text → P) (show : P → Text) (is_absolute : P → Bool)
    (resolve : P → Option P) (parts : P → List Text) (lower : Text → Text) where
  -- A resolved path without the prefix that Windows puts in front of an extended one.
  pub data IsPlain (found plain : P) : Type 0 where
    extended :
        (rest : Text)
        → (show found ≡ codes "\\\\?\\" ++ rest) ⊎ (show found ≡ codes "//?/" ++ rest)
        → plain ≡ of_text rest
        → IsPlain found plain
    unchanged :
        ((rest : Text) → show found ≢ codes "\\\\?\\" ++ rest)
        → ((rest : Text) → show found ≢ codes "//?/" ++ rest)
        → plain ≡ found
        → IsPlain found plain

  -- The path of the setting, or of its trimmed text.
  abbrev pub IsNamed : RootSetting P → P → Type 0
  IsNamed unset candidate = ⊥
  IsNamed (as_text root) candidate = candidate ≡ of_text (strip root)
  IsNamed (as_path root) candidate = candidate ≡ root

  -- An absolute path that resolves to the root.
  abbrev pub IsResolved : P → P → Type 0
  IsResolved candidate root =
      (is_absolute candidate ≡ true)
      × (found : P) × (resolve candidate ≡ some found)
      × IsPlain found root

  abbrev pub OutsideFound : Option P → P → Type 0
  OutsideFound none root = Unit
  OutsideFound (some found) root = (base : P) × IsPlain found base × Apart (parts root) (parts base)

  -- Outside of what the git root resolves to, if there is one and it resolves.
  abbrev pub OutsideGit : Option P → P → Type 0
  OutsideGit none root = Unit
  OutsideGit (some git_root) root = OutsideFound (resolve git_root) root

  -- A place that the store may use.
  pub record IsSafeRoot (git_root : Option P) (root : P) : Type 0 where
    pub below_drive : 1 < length (parts root)
    pub no_scratch_part : All (λ (part : Text). lower part ≢ codes "scratch") (parts root)
    pub no_scratch_dir : Lacks (lower (show root)) (codes "antigravity-ide/scratch")
    pub no_scratch_dir_windows : Lacks (lower (show root)) (codes "antigravity-ide\\scratch")
    pub outside_git : OutsideGit git_root root

  lower-member :
      (token : Text) (texts : List Text)
      → member token (map lower texts) ≡ false
      → All (λ (part : Text). lower part ≢ token) texts
  unfolding member
  lower-member token [] h = tt
  lower-member token (t ∷ texts) h = (
    (λ e. ground (arith, h, (text_eq_iff token (lower t)).1 (sym e))),
    lower-member token texts (ground (arith, h)),
  )

  no_prefix : (s prefix : Text) → starts_with s prefix ≡ false → (rest : Text) → s ≢ prefix ++ rest
  no_prefix s prefix other rest e =
      let k : starts_with s prefix ≡ true = rw e (starts_with_append prefix rest) in
      absurd (ground (arith, other, k))

  normalize_resolved_path-IsPlain :
      (found : P)
      → IsPlain found (normalize_resolved_path of_text show is_absolute resolve parts lower found)
  unfolding normalize_resolved_path
  normalize_resolved_path-IsPlain found =
      elim (Bool-cases (starts_with (show found) (codes "\\\\?\\"))) [
        | inl h ↦
            let (rest, e) = starts_with_split (show found) (codes "\\\\?\\") h in
            extended rest (inl e) (rw (normalize_resolved_path, h) (ap (λ s. of_text (drop 4 s)) e))
        | inr no_device ↦ elim (Bool-cases (starts_with (show found) (codes "//?/"))) [
          | inl h ↦
              let (rest, e) = starts_with_split (show found) (codes "//?/") h in
              extended rest (inr e)
                (rw (normalize_resolved_path, no_device, h) (ap (λ s. of_text (drop 4 s)) e))
          | inr other ↦
              unchanged (no_prefix (show found) (codes "\\\\?\\") no_device)
                (no_prefix (show found) (codes "//?/") other)
                (rw (normalize_resolved_path, no_device, other) refl)
        ]
      ]

  in_git_tree-OutsideGit :
      (git_root : Option P) (root : P)
      → in_git_tree of_text show is_absolute resolve parts lower git_root root ≡ false
      → OutsideGit git_root root
  unfolding in_git_tree
  in_git_tree-OutsideGit none root h = tt
  in_git_tree-OutsideGit (some git_root) root h = elim (Option-cases (resolve git_root)) [
    | inl lost ↦ subst (λ found. OutsideFound found root) (sym lost) tt
    | inr (found, e) ↦
        subst (λ found. OutsideFound found root) (sym e)
          (
            normalize_resolved_path of_text show is_absolute resolve parts lower found,
            normalize_resolved_path-IsPlain found,
            is_relative_to-Apart (parts root) _ (rw (in_git_tree, e) at h),
          )
  ]

  accepted-IsSafeRoot :
      (git_root : Option P) (root : P)
      → leb (length (parts root)) 1 ≡ false
      → in_scratch of_text show is_absolute resolve parts lower root ≡ false
      → in_git_tree of_text show is_absolute resolve parts lower git_root root ≡ false
      → IsSafeRoot git_root root
  unfolding in_scratch forward_slashes
  accepted-IsSafeRoot git_root root large kept outer =
      let missing : contains (forward_slashes (lower (show root))) (codes "antigravity-ide/scratch")
          ≡ false =
        ground (arith, kept) in
      record {
        below_drive = not_leb→lt (length (parts root)) 1 large;
        no_scratch_part = lower-member (codes "scratch") (parts root) (ground (arith, kept));
        no_scratch_dir =
            contains-Lacks (lower (show root)) (codes "antigravity-ide/scratch") missing;
        no_scratch_dir_windows =
            contains-Lacks (lower (show root)) (codes "antigravity-ide\\scratch") missing;
        outside_git = in_git_tree-OutsideGit git_root root outer;
      }

  check_resolved-IsSafeRoot :
      (git_root : Option P) (resolved root : P)
      → check_resolved of_text show is_absolute resolve parts lower git_root resolved ≡ ok root
      → (resolved ≡ root) × IsSafeRoot git_root root
  unfolding check_resolved
  check_resolved-IsSafeRoot git_root resolved root h =
      elim (Bool-cases (leb (length (parts resolved)) 1)) [
        | inl small ↦ absurd (ground (arith, h, small))
        | inr large ↦
            elim (Bool-cases (in_scratch of_text show is_absolute resolve parts lower resolved)) [
              | inl scratch ↦ absurd (ground (arith, h, large, scratch))
              | inr kept ↦
                  elim (Bool-cases
                    (in_git_tree of_text show is_absolute resolve parts lower git_root resolved)) [
                      | inl inner ↦ absurd (ground (arith, h, large, kept, inner))
                      | inr outer ↦
                          let same : resolved ≡ root = ground (arith, h, large, kept, outer) in
                          (
                            same,
                            rw (sym same) (accepted-IsSafeRoot git_root resolved large kept outer),
                          )
                    ]
            ]
      ]

  check_candidate-IsSafeRoot :
      (candidate : P) (git_root detected : Option P) {root : P}
      → check_candidate of_text show is_absolute resolve parts lower candidate git_root detected
        ≡ ok root
      → IsResolved candidate root
        × IsSafeRoot
            (effective_git_root of_text show is_absolute resolve parts lower git_root detected)
            root
  unfolding check_candidate
  check_candidate-IsSafeRoot candidate git_root detected h =
      elim (Bool-cases (is_absolute candidate)) [
        | inr relative ↦ absurd (ground (arith, h, relative))
        | inl absolute ↦ elim (Option-cases (resolve candidate)) [
          | inl failed ↦ absurd (ground (arith, h, absolute, failed))
          | inr (found, resolved) ↦
              let (same, safe) =
                check_resolved-IsSafeRoot
                  (effective_git_root of_text show is_absolute resolve parts lower git_root
                    detected)
                  (normalize_resolved_path of_text show is_absolute resolve parts lower found) _
                  (ground (arith, h, absolute, resolved)) in
              (
                (absolute, found, resolved, rw (sym same) (normalize_resolved_path-IsPlain found)),
                safe,
              )
        ]
      ]

  -- A root that validate_artifact_root returns is what an absolute path resolves to, the path of the
  -- setting or of its trimmed text, less the prefix of an extended Windows path. It has more than
  -- one part, none of its parts is "scratch" when lower-cased, its lower-cased text has neither
  -- "antigravity-ide/scratch" nor "antigravity-ide\scratch" in it, and its parts do not begin with
  -- the parts of the git root in force, where that resolves, less the same prefix.
  pub validate_artifact_root-IsSafeRoot :
      (root : RootSetting P) (git_root detected : Option P) {found : P}
      → validate_artifact_root of_text show is_absolute resolve parts lower root git_root detected
        ≡ ok found
      → ((candidate : P) × IsNamed root candidate × IsResolved candidate found)
        × IsSafeRoot
            (effective_git_root of_text show is_absolute resolve parts lower git_root detected)
            found
  unfolding validate_artifact_root
  validate_artifact_root-IsSafeRoot unset git_root detected h = absurd (ground (arith, h))
  validate_artifact_root-IsSafeRoot (as_text root) git_root detected h =
      elim (Bool-cases (is_empty (strip root))) [
        | inl blank ↦ absurd (ground (arith, h, blank))
        | inr named ↦
            let (resolved, safe) =
              check_candidate-IsSafeRoot (of_text (strip root)) git_root detected
                (ground (arith, h, named)) in
            ((of_text (strip root), refl, resolved), safe)
      ]
  validate_artifact_root-IsSafeRoot (as_path root) git_root detected h =
      let (resolved, safe) = check_candidate-IsSafeRoot root git_root detected h in
      ((root, refl, resolved), safe)
