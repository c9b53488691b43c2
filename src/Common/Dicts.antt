-- ===== src/Common/Dicts.antt =====
-- Python's dict with str keys, in insertion order, as an association list.
use mathlib.Core.Path.{◌≡◌, refl, subst}
use mathlib.Core.Bool.{Bool, true, false, ◌||◌}
use mathlib.Core.Logic.{inl, inr}
use mathlib.Core.Option.{Option, none, some}
use mathlib.Core.List.{List, [], ◌∷◌}
use native.Mathlib.Omega.{arith}
use superoffice_ai_support_m.Common.Tests.{if◌then◌else◌, Bool-cases}
use superoffice_ai_support_m.Common.Texts.{Text, text_eq, text_eq_iff, text_eq_refl}

abbrev pub Dict {ℓ} : Type ℓ → Type ℓ
Dict V = List (Text × V)

module _ {ℓ} {V : Type ℓ} where
  -- d.get(k)
  unfoldable pub lookup : Text → Dict V → Option V
  lookup k [] = none
  lookup k ((j, v) ∷ d) = if text_eq j k then some v else lookup k d

  -- d.get(k, default)
  unfoldable pub lookup_or : Text → Dict V → V → V
  lookup_or k d v = elim (lookup k d) [ none ↦ v | some w ↦ w ]

  -- k in d
  unfoldable pub has_key : Text → Dict V → Bool
  has_key k [] = false
  has_key k ((j, v) ∷ d) = text_eq j k || has_key k d

  -- d[k] = v: a key that is there keeps its place
  unfoldable pub put : Text → V → Dict V → Dict V
  put k v [] = (k, v) ∷ []
  put k v ((j, w) ∷ d) = if text_eq j k then (j, v) ∷ d else (j, w) ∷ put k v d

  -- d.pop(k, None)
  unfoldable pub remove : Text → Dict V → Dict V
  remove k [] = []
  remove k ((j, v) ∷ d) = let rest = remove k d in if text_eq j k then rest else (j, v) ∷ rest

  pub lookup-put :
      (k j : Text) (v : V) (d : Dict V)
      → lookup j (put k v d) ≡ (if text_eq k j then some v else lookup j d)
  unfolding lookup put
  lookup-put k j v [] = refl
  lookup-put k j v ((i, w) ∷ d) =
      ground (arith, text_eq_iff k j, text_eq_iff i k, text_eq_iff i j, lookup-put k j v d)

  pub lookup-put_self : (k : Text) (v : V) (d : Dict V) → lookup k (put k v d) ≡ some v
  lookup-put_self k v d = simp (lookup-put, text_eq_refl)

  pub lookup-remove :
      (k j : Text) (d : Dict V) → lookup j (remove k d) ≡ (if text_eq k j then none else lookup j d)
  unfolding lookup remove
  lookup-remove k j [] = ground arith
  lookup-remove k j ((i, w) ∷ d) =
      ground (arith, text_eq_iff k j, text_eq_iff i k, text_eq_iff i j, lookup-remove k j d)

  pub has_key-lookup :
      (k : Text) (d : Dict V) → has_key k d ≡ elim (lookup k d) [ none ↦ false | some _ ↦ true ]
  unfolding has_key lookup
  has_key-lookup k [] = refl
  has_key-lookup k ((j, v) ∷ d) = ground (arith, has_key-lookup k d)

  -- A property of the values is found at every key.
  pub lookup-cons_property {κ} :
      (P : V → Type κ) (k j : Text) (v w : V) (d : Dict V)
      → P v
      → (lookup k d ≡ some w → P w)
      → lookup k ((j, v) ∷ d) ≡ some w
      → P w
  unfolding lookup
  lookup-cons_property P k j v w d here later h = elim (Bool-cases (text_eq j k)) [
    | inl same ↦ subst P (cc same) here
    | inr other ↦ later (rw other at h)
  ]
