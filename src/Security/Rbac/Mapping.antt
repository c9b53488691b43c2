-- ===== src/Security/Rbac/Mapping.antt =====
-- The YAML loader of platform_security/rbac.py that refuses duplicate keys.
use mathlib.Core.List.{append_assoc, append-nil}
use superoffice_ai_support_m.Common.{
  ◌≡◌, refl, ap, ◌↔◌, ◌⊎◌, inl, inr, false, ◌||◌, List, [], ◌∷◌, ◌++◌, Text, Dict, text_eq,
  text_eq_iff, has_key, put, ok, err, Bool-cases, arith,
}
use superoffice_ai_support_m.Security.Rbac.{duplicate_key, construct_mapping}

-- The keys of a mapping are pairwise different.
abbrev pub UniqueKeys {ℓ} : {V : Type ℓ} → List (Text × V) → Type 0
UniqueKeys [] = Unit
UniqueKeys ((key, _) ∷ nodes) = (has_key key nodes ≡ false) × UniqueKeys nodes

-- The keys of `nodes` are not among those of `mapping`.
abbrev Fresh {ℓ} : {V : Type ℓ} → Dict V → List (Text × V) → Type 0
Fresh mapping [] = Unit
Fresh mapping ((key, _) ∷ nodes) = (has_key key mapping ≡ false) × Fresh mapping nodes

Fresh-nil {ℓ} : {V : Type ℓ} (nodes : List (Text × V)) → Fresh [] nodes
Fresh-nil [] = tt
Fresh-nil ((key, _) ∷ nodes) = (unfold has_key in refl, Fresh-nil nodes)

module _ {ℓ} {V : Type ℓ} where
  put_of_absent :
      (key : Text) (value : V) (mapping : Dict V)
      → has_key key mapping ≡ false
      → put key value mapping ≡ mapping ++ (key, value) ∷ []
  unfolding put has_key
  put_of_absent key value [] h = refl
  put_of_absent key value ((j, v) ∷ mapping) h = ground (arith, put_of_absent key value mapping)

  has_key-append :
      (key j : Text) (value : V) (mapping : Dict V)
      → has_key key (mapping ++ (j, value) ∷ []) ≡ (has_key key mapping || text_eq j key)
  unfolding has_key
  has_key-append key j value [] = ground arith
  has_key-append key j value ((i, v) ∷ mapping) = ground (arith, has_key-append key j value mapping)

  Fresh-append :
      (key : Text) (value : V) (mapping : Dict V) (nodes : List (Text × V))
      → Fresh (mapping ++ (key, value) ∷ []) nodes
        ↔ (Fresh mapping nodes × (has_key key nodes ≡ false))
  unfolding has_key
  Fresh-append key value mapping [] = ((λ h. (tt, refl)), (λ h. tt))
  Fresh-append key value mapping ((j, v) ∷ nodes) =
      let (to, from) = Fresh-append key value mapping nodes in
      (
        (λ h.
            let (fresh, absent) = to h.1 in
            (
              (ground (arith, has_key-append j key value mapping), fresh),
              ground
                  (arith, has_key-append j key value mapping, text_eq_iff key j, text_eq_iff j key),
            )),
        (λ h. (
          ground (arith, has_key-append j key value mapping, text_eq_iff key j, text_eq_iff j key),
          from (h.0.1, ground arith),
        )),
      )

  construct_mapping_cases :
      (nodes : List (Text × V)) (mapping : Dict V)
      → ((construct_mapping nodes mapping ≡ ok (mapping ++ nodes))
          × UniqueKeys nodes
          × Fresh mapping nodes)
        ⊎ ((construct_mapping nodes mapping ≡ err duplicate_key)
            × ¬ (UniqueKeys nodes × Fresh mapping nodes))
  unfolding construct_mapping
  construct_mapping_cases [] mapping = inl (rw append-nil, tt, tt)
  construct_mapping_cases ((key, value) ∷ nodes) mapping = elim (Bool-cases (has_key key mapping)) [
    | inl there ↦ inr (rw there, λ h. (let f = h.1.0 in cc))
    | inr absent ↦ elim (construct_mapping_cases nodes (put key value mapping)) [
      | inl (e, unique, fresh) ↦
          let (fresh', key_fresh) =
            (Fresh-append key value mapping nodes).0
              (rw (put_of_absent key value mapping absent) at fresh) in
          inl (
            rw (absent, e, put_of_absent key value mapping absent)
                (ap ok (append_assoc mapping ((key, value) ∷ []) nodes)),
            (key_fresh, unique),
            (absent, fresh'),
          )
      | inr (e, clash) ↦ inr (
        rw (absent, e),
        λ h. clash (
          h.0.1,
          rw (put_of_absent key value mapping absent)
              ((Fresh-append key value mapping nodes).1 (h.1.1, h.0.0)),
        ),
      )
    ]
  ]

  -- The YAML loader takes a mapping over unchanged if its keys are pairwise different, and refuses
  -- it as a duplicate otherwise: no rule of a policy file is silently overwritten.
  construct_mapping_unique :
      (nodes : List (Text × V))
      → ((construct_mapping nodes [] ≡ ok nodes) × UniqueKeys nodes)
        ⊎ ((construct_mapping nodes [] ≡ err duplicate_key) × ¬ UniqueKeys nodes)
  construct_mapping_unique nodes = elim (construct_mapping_cases nodes []) [
    | inl (e, unique, _) ↦ inl (e, unique)
    | inr (e, clash) ↦ inr (e, λ unique. clash (unique, Fresh-nil nodes))
  ]
