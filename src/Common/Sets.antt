-- ===== src/Common/Sets.antt =====
-- Python's set of texts, as the code uses it: its size, membership, disjointness and inclusion.
use Prim.Native.Nat.{◌≤◌}
use mathlib.Core.Path.{◌≡◌, refl}
use mathlib.Core.Logic.{◌↔◌}
use mathlib.Core.Bool.{Bool, true, false, not, ◌||◌}
use mathlib.Core.List.{List, [], ◌∷◌, ◌++◌}
use native.Mathlib.Omega.{arith}
use superoffice_ai_support_m.Common.Tests.{if◌then◌else◌, ◌==◌}
use superoffice_ai_support_m.Common.Lists.{length, any, all}
use superoffice_ai_support_m.Common.Texts.{Text, text_eq_iff, text_eq_refl, member}

-- set(xs), as the list of its elements
unfoldable pub to_set : List Text → List Text
to_set [] = []
to_set (x ∷ xs) = let rest = to_set xs in if member x rest then rest else x ∷ rest

-- xs.isdisjoint(ys)
unfoldable pub is_disjoint : List Text → List Text → Bool
is_disjoint xs ys = not (any (λ x. member x ys) xs)

-- xs.issubset(ys)
unfoldable pub is_subset : List Text → List Text → Bool
is_subset xs ys = all (λ x. member x ys) xs

-- No text occurs twice.
abbrev pub Distinct : List Text → Type 0
Distinct [] = Unit
Distinct (x ∷ xs) = (member x xs ≡ false) × Distinct xs

pub member-to_set : (x : Text) (xs : List Text) → member x (to_set xs) ≡ member x xs
unfolding member to_set
member-to_set x [] = refl
member-to_set x (y ∷ ys) = ground (arith, member-to_set x ys, member-to_set y ys, text_eq_iff x y)

length-to_set_le : (xs : List Text) → length (to_set xs) ≤ length xs
unfolding to_set
length-to_set_le [] = omega arith
length-to_set_le (x ∷ xs) = ground (arith, length-to_set_le xs)

-- len(xs) == len(set(xs))
pub length-to_set_iff : (xs : List Text) → ((length xs == length (to_set xs)) ≡ true) ↔ Distinct xs
unfolding to_set
length-to_set_iff [] = ((λ _. tt), (λ _. refl))
length-to_set_iff (x ∷ xs) =
    let (to, from) = length-to_set_iff xs in
    (
      (λ h. (
        ground (arith, member-to_set x xs, length-to_set_le xs),
        to (ground (arith, length-to_set_le xs)),
      )),
      (λ (absent, distinct). ground (arith, member-to_set x xs, from distinct)),
    )

pub member-append :
    (x : Text) (xs ys : List Text) → member x (xs ++ ys) ≡ (member x xs || member x ys)
unfolding member
member-append x [] ys = refl
member-append x (z ∷ xs) ys = ground (arith, member-append x xs ys)

-- A test that all elements pass, through membership.
pub all_iff :
    (p : Text → Bool) (xs : List Text)
    → (all p xs ≡ true) ↔ ((x : Text) → member x xs ≡ true → p x ≡ true)
unfolding member
all_iff p [] = ((λ h x m. cc), (λ h. refl))
all_iff p (z ∷ xs) =
    let (to, from) = all_iff p xs in
    (
      (λ h x m. ground (arith, text_eq_iff x z, to (ground arith) x)),
      (λ h.
          let here = h z (rw text_eq_refl) in
          let rest = from (λ x m. h x (ground arith)) in ground arith),
    )

is_disjoint-all : (xs ys : List Text) → is_disjoint xs ys ≡ all (λ x. not (member x ys)) xs
unfolding is_disjoint
is_disjoint-all [] ys = refl
is_disjoint-all (x ∷ xs) ys = ground (arith, is_disjoint-all xs ys)

pub is_disjoint_iff :
    (xs ys : List Text)
    → (is_disjoint xs ys ≡ true) ↔ ((x : Text) → member x xs ≡ true → member x ys ≡ false)
is_disjoint_iff xs ys =
    let (to, from) = all_iff (λ x. not (member x ys)) xs in
    (
      (λ h x m. let e = to (rw is_disjoint-all at h) x m in ground arith),
      (λ h. rw is_disjoint-all (from (λ x m. rw (h x m)))),
    )

pub is_subset_iff :
    (xs ys : List Text)
    → (is_subset xs ys ≡ true) ↔ ((x : Text) → member x xs ≡ true → member x ys ≡ true)
unfolding is_subset
is_subset_iff xs ys = all_iff (λ x. member x ys) xs
