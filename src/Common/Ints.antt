-- ===== src/Common/Ints.antt =====
-- Python's int where a value may be negative.
use Prim.Native.Nat.{ℕ, ◌≤◌}
use mathlib.Core.Path.{◌≡◌, refl}
use mathlib.Core.Logic.{◌↔◌}
use mathlib.Core.Bool.{Bool, true, false}
use native.Mathlib.Omega.{arith}
use superoffice_ai_support_m.Common.Tests.{ltb}

-- `negsuc n` is -(n + 1).
pub data ℤ : Type 0 where
  pos : ℕ → ℤ
  negsuc : ℕ → ℤ

infix 50 ◌<ℤ◌
abbrev pub ◌<ℤ◌ : ℤ → ℤ → Bool
pos a <ℤ pos b = ltb a b
pos a <ℤ negsuc b = false
negsuc a <ℤ pos b = true
negsuc a <ℤ negsuc b = ltb b a

infix 50 ◌≤ℤ◌
abbrev pub ◌≤ℤ◌ : ℤ → ℤ → Type 0
pos a ≤ℤ pos b = a ≤ b
pos a ≤ℤ negsuc b = ⊥
negsuc a ≤ℤ pos b = Unit
negsuc a ≤ℤ negsuc b = b ≤ a

pub not_lt_iff : (a b : ℤ) → ((b <ℤ a) ≡ false) ↔ (a ≤ℤ b)
not_lt_iff (pos a) (pos b) = ((λ h. ground arith), (λ h. ground arith))
not_lt_iff (pos a) (negsuc b) = ((λ h. cc), (λ h. absurd h))
not_lt_iff (negsuc a) (pos b) = ((λ h. tt), (λ h. refl))
not_lt_iff (negsuc a) (negsuc b) = ((λ h. ground arith), (λ h. ground arith))

pub ≤ℤ_trans : (a b c : ℤ) → a ≤ℤ b → b ≤ℤ c → a ≤ℤ c
≤ℤ_trans (pos a) (pos b) (pos c) p q = omega arith
≤ℤ_trans (pos a) (pos b) (negsuc c) p q = absurd q
≤ℤ_trans (pos a) (negsuc b) c p q = absurd p
≤ℤ_trans (negsuc a) (pos b) (pos c) p q = tt
≤ℤ_trans (negsuc a) (pos b) (negsuc c) p q = absurd q
≤ℤ_trans (negsuc a) (negsuc b) (pos c) p q = tt
≤ℤ_trans (negsuc a) (negsuc b) (negsuc c) p q = omega arith
