-- ===== src/Common/Texts.antt =====
-- Python's str as the list of its code points, and the methods of str that the code calls.
use Prim.Native.Nat.{ℕ, ◌-◌}
use Prim.Native.Char.{code}
use Prim.Native.String.{String}
use mathlib.Core.Path.{◌≡◌, refl, ap₂}
use mathlib.Core.Logic.{◌↔◌, inl, inr}
use mathlib.Core.Bool.{Bool, true, false, not, ◌&&◌, ◌||◌}
use mathlib.Core.List.{List, [], ◌∷◌, ◌++◌}
use native.Mathlib.Omega.{arith}
use superoffice_ai_support_m.Common.Tests.{leb, ◌==◌, ==_iff, if◌then◌else◌, and_parts, Bool-cases}
use superoffice_ai_support_m.Common.Lists.{is_empty, length, drop, all}

abbrev pub Text : Type 0
Text = List ℕ

-- A literal of the source.
abbrev pub codes : String → Text
codes String.[] = []
codes (String.◌∷◌ c s) = code c ∷ codes s

-- s == t
unfoldable pub text_eq : Text → Text → Bool
text_eq [] [] = true
text_eq [] (d ∷ t) = false
text_eq (c ∷ s) [] = false
text_eq (c ∷ s) (d ∷ t) = c == d && text_eq s t

text_eq_sound : (s t : Text) → text_eq s t ≡ true → s ≡ t
unfolding text_eq
text_eq_sound [] [] h = refl
text_eq_sound [] (d ∷ t) h = cc
text_eq_sound (c ∷ s) [] h = cc
text_eq_sound (c ∷ s) (d ∷ t) h =
    let (p, q) = and_parts (c == d) (text_eq s t) h in
    ap₂ ◌∷◌ ((==_iff c d).0 p) (text_eq_sound s t q)

pub text_eq_refl : (s : Text) → text_eq s s ≡ true
unfolding text_eq
text_eq_refl [] = refl
text_eq_refl (c ∷ s) = ground (arith, text_eq_refl s)

pub text_eq_iff : (s t : Text) → (text_eq s t ≡ true) ↔ (s ≡ t)
text_eq_iff s t = (text_eq_sound s t, λ e. rw e (text_eq_refl t))

-- x in xs, for a set, tuple or list of texts
unfoldable pub member : Text → List Text → Bool
member x [] = false
member x (y ∷ ys) = text_eq x y || member x ys

-- The code points that str.isspace accepts, which str.strip removes.
unfoldable pub is_space : ℕ → Bool
is_space c =
    (leb 9 c && leb c 13)
    || (leb 28 c && leb c 32)
    || c == 0x85
    || c == 0xa0
    || c == 0x1680
    || (leb 0x2000 c && leb c 0x200a)
    || c == 0x2028
    || c == 0x2029
    || c == 0x202f
    || c == 0x205f
    || c == 0x3000

unfoldable pub lstrip : Text → Text
lstrip [] = []
lstrip (c ∷ s) = let rest = lstrip s in if is_space c then rest else c ∷ s

unfoldable pub rstrip : Text → Text
rstrip [] = []
rstrip (c ∷ s) = let rest = rstrip s in if is_empty rest && is_space c then [] else c ∷ rest

unfoldable pub strip : Text → Text
unfolding lstrip rstrip is_space
strip s = rstrip (lstrip s)

-- not s.strip(), which `not s or not s.strip()` comes to
unfoldable pub is_blank : Text → Bool
unfolding strip
is_blank s = is_empty (strip s)

rstrip-rstrip : (s : Text) → rstrip (rstrip s) ≡ rstrip s
unfolding rstrip
rstrip-rstrip [] = refl
rstrip-rstrip (c ∷ s) = ground (arith, rstrip-rstrip s)

abbrev starts_solid : Text → Bool
starts_solid [] = true
starts_solid (c ∷ s) = if is_space c then false else true

lstrip-solid : (s : Text) → starts_solid (lstrip s) ≡ true
unfolding lstrip
lstrip-solid [] = refl
lstrip-solid (c ∷ s) = ground (arith, lstrip-solid s)

rstrip-solid : (s : Text) → starts_solid s ≡ true → starts_solid (rstrip s) ≡ true
unfolding rstrip
rstrip-solid [] h = refl
rstrip-solid (c ∷ s) h = ground arith

lstrip_of_solid : (s : Text) → starts_solid s ≡ true → lstrip s ≡ s
unfolding lstrip
lstrip_of_solid [] h = refl
lstrip_of_solid (c ∷ s) h = ground arith

-- Stripping twice is stripping once.
pub strip-strip : (s : Text) → strip (strip s) ≡ strip s
strip-strip s =
    unfold strip in
    rw (lstrip_of_solid (rstrip (lstrip s)) (rstrip-solid (lstrip s) (lstrip-solid s)))
      (rstrip-rstrip (lstrip s))

-- s.startswith(prefix)
unfoldable pub starts_with : Text → Text → Bool
starts_with s [] = true
starts_with [] (p ∷ prefix) = false
starts_with (c ∷ s) (p ∷ prefix) = c == p && starts_with s prefix

-- token in s
unfoldable pub contains : Text → Text → Bool
unfolding starts_with
contains [] token = starts_with [] token
contains (c ∷ s) token = starts_with (c ∷ s) token || contains s token

-- A `$` matches at the end, and before a newline at the end.
unfoldable pub drop_newline : Text → Text
drop_newline [] = []
drop_newline (c ∷ s) =
    let rest = drop_newline s in if is_empty s && c == b'\n' then [] else c ∷ rest

pub starts_with_append : (s t : Text) → starts_with (s ++ t) s ≡ true
unfolding starts_with
starts_with_append [] t = refl
starts_with_append (c ∷ s) t = ground (arith, starts_with_append s t)

pub starts_with_weaken :
    (s t prefix : Text) → starts_with s prefix ≡ true → starts_with (s ++ t) prefix ≡ true
unfolding starts_with
starts_with_weaken s t [] h = refl
starts_with_weaken [] t (p ∷ prefix) h = cc
starts_with_weaken (c ∷ s) t (p ∷ prefix) h = ground (arith, starts_with_weaken s t prefix, h)

-- A text with the prefix is the prefix and a rest.
pub starts_with_split :
    (s prefix : Text) → starts_with s prefix ≡ true → (tail : Text) × (s ≡ prefix ++ tail)
unfolding starts_with
starts_with_split s [] h = (s, refl)
starts_with_split [] (p ∷ prefix) h = cc h
starts_with_split (c ∷ s) (p ∷ prefix) h =
    let (here, later) = and_parts _ (starts_with s prefix) h in
    let (tail, e) = starts_with_split s prefix later in (tail, ap₂ ◌∷◌ ((==_iff c p).0 here) e)

-- s.endswith(suffix)
unfoldable pub ends_with : Text → Text → Bool
ends_with s suffix = text_eq (drop (length s - length suffix) s) suffix

-- s.replace("-", "_")
unfoldable pub underscores : Text → Text
underscores [] = []
underscores (c ∷ s) = (if c == b'-' then b'_' else c) ∷ underscores s

-- A character that no strip removes.
unfoldable pub is_solid : ℕ → Bool
unfolding is_space
is_solid c = not (is_space c)

not_space : (c : ℕ) → is_solid c ≡ true → is_space c ≡ false
unfolding is_solid
not_space c h = elim (Bool-cases (is_space c)) [
  | inl space ↦ absurd (ground (arith, h, space))
  | inr solid ↦ solid
]

lstrip-solid_text : (s : Text) → all is_solid s ≡ true → lstrip s ≡ s
unfolding lstrip
lstrip-solid_text [] h = refl
lstrip-solid_text (c ∷ s) h =
    let (here, later) = and_parts (is_solid c) (all is_solid s) h in rw (not_space c here) refl

rstrip-solid_text : (s : Text) → all is_solid s ≡ true → rstrip s ≡ s
unfolding rstrip
rstrip-solid_text [] h = refl
rstrip-solid_text (c ∷ s) h =
    let (here, later) = and_parts (is_solid c) (all is_solid s) h in
    rw (rstrip-solid_text s later, not_space c here) (ground arith)

pub strip-solid_text : (s : Text) → all is_solid s ≡ true → strip s ≡ s
unfolding strip
strip-solid_text s h = rw (lstrip-solid_text s h) (rstrip-solid_text s h)

newline-solid : (c : ℕ) → is_solid c ≡ true → (c == b'\n') ≡ false
unfolding is_solid is_space
newline-solid c h = ground (arith, h)

pub drop_newline-solid_text : (s : Text) → all is_solid s ≡ true → drop_newline s ≡ s
unfolding drop_newline
drop_newline-solid_text [] h = refl
drop_newline-solid_text (c ∷ s) h = ground (arith, newline-solid c, drop_newline-solid_text s, h)
