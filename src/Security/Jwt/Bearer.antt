-- ===== src/Security/Jwt/Bearer.antt =====
-- The token of an Authorization header, as platform_security/jwt.py reads it.
use superoffice_ai_support_m.Common.{
  ℕ, zero, suc, ◌≡◌, ◌≢◌, refl, sym, ap, ◌∙◌, ◌↔◌, true, false, [], ◌∷◌, ◌++◌, is_empty, length,
  drop, drop-length_append, Text, codes, strip, starts_with, starts_with_split, starts_with_append,
  ok, arith, Bool-cases, inl, inr,
}
use superoffice_ai_support_m.Security.Jwt.{bearer_token}

drop_split :
    (n : ℕ) (s : Text)
    → drop n s ≢ []
    → (scheme : Text) × (s ≡ scheme ++ drop n s) × (length scheme ≡ n)
drop_split zero s some_left = ([], refl, refl)
drop_split (suc n) [] some_left = absurd (some_left refl)
drop_split (suc n) (c ∷ s) some_left =
    let (scheme, e, l) = drop_split n s some_left in
    (c ∷ scheme, ap {B = Text} (λ rest. c ∷ rest) e, ap {B = ℕ} (λ k. suc k) l)

is_empty_iff : (s : Text) → (is_empty s ≡ false) ↔ (s ≢ [])
is_empty_iff [] = ((λ h. cc h), (λ differs. absurd (differs refl)))
is_empty_iff (c ∷ s) = ((λ h e. cc e), (λ differs. refl))

-- A header that begins with the seven characters of "bearer ", in any case, presents what follows
-- them, trimmed; another header presents itself, trimmed.
pub data Presents (lower : Text → Text) (credentials raw_token : Text) : Type 0 where
  with_scheme :
      (scheme rest tail : Text)
      → strip credentials ≡ scheme ++ rest
      → length scheme ≡ 7
      → lower (strip credentials) ≡ codes "bearer " ++ tail
      → raw_token ≡ strip rest
      → raw_token ≢ []
      → Presents lower credentials raw_token
  bare :
      ((tail : Text) → lower (strip credentials) ≢ codes "bearer " ++ tail)
      → raw_token ≡ strip credentials
      → raw_token ≢ []
      → Presents lower credentials raw_token

module _ (lower : Text → Text) (credentials : Text) where
  bearer_token_scheme :
      (raw_token : Text)
      → starts_with (lower (strip credentials)) (codes "bearer ") ≡ true
      → bearer_token lower credentials ≡ ok raw_token
      → (strip (drop 7 (strip credentials)) ≡ raw_token) × (is_empty raw_token ≡ false)
  unfolding bearer_token
  bearer_token_scheme raw_token named h =
      let same : strip (drop 7 (strip credentials)) ≡ raw_token = ground (arith, h, named) in
      (same, rw (sym same) (ground (arith, h, named)))

  bearer_token_bare :
      (raw_token : Text)
      → starts_with (lower (strip credentials)) (codes "bearer ") ≡ false
      → bearer_token lower credentials ≡ ok raw_token
      → (strip credentials ≡ raw_token) × (is_empty raw_token ≡ false)
  unfolding bearer_token
  bearer_token_bare raw_token other h =
      let same : strip credentials ≡ raw_token = ground (arith, h, other) in
      (same, rw (sym same) (ground (arith, h, other)))

  strip_nil : strip [] ≡ []
  unfolding strip
  strip_nil = refl

  bearer_token-Presents :
      (raw_token : Text)
      → bearer_token lower credentials ≡ ok raw_token
      → Presents lower credentials raw_token
  bearer_token-Presents raw_token h =
      elim (Bool-cases (starts_with (lower (strip credentials)) (codes "bearer "))) [
        | inl named ↦
            let (same, kept) = bearer_token_scheme raw_token named h in
            let present = (is_empty_iff raw_token).0 kept in
            let (tail, e) = starts_with_split (lower (strip credentials)) (codes "bearer ") named in
            let (scheme, f, l) =
              drop_split 7 (strip credentials)
                (λ gone. present (sym same ∙ (ap strip gone ∙ strip_nil))) in
            with_scheme scheme (drop 7 (strip credentials)) tail f l e (sym same) present
        | inr other ↦
            let (same, kept) = bearer_token_bare raw_token other h in
            bare
              (λ tail e.
                let k : starts_with (lower (strip credentials)) (codes "bearer ") ≡ true =
                  rw e (starts_with_append (codes "bearer ") tail) in
                absurd (ground (arith, other, k)))
              (sym same) ((is_empty_iff raw_token).0 kept)
      ]

  bearer_token_ok :
      (raw_token : Text)
      → is_empty (strip credentials) ≡ false
      → is_empty raw_token ≡ false
      → (starts_with (lower (strip credentials)) (codes "bearer ") ≡ true
          → strip (drop 7 (strip credentials)) ≡ raw_token)
      → (starts_with (lower (strip credentials)) (codes "bearer ") ≡ false
          → strip credentials ≡ raw_token)
      → bearer_token lower credentials ≡ ok raw_token
  unfolding bearer_token
  bearer_token_ok raw_token present kept named other =
      elim (Bool-cases (starts_with (lower (strip credentials)) (codes "bearer "))) [
        | inl e ↦ rw (bearer_token, e, present, named e, kept) refl
        | inr e ↦ rw (bearer_token, e, present, other e) refl
      ]

  Presents-bearer_token :
      (raw_token : Text)
      → Presents lower credentials raw_token
      → bearer_token lower credentials ≡ ok raw_token
  Presents-bearer_token raw_token (with_scheme scheme rest tail e l f same present) =
      let named : starts_with (lower (strip credentials)) (codes "bearer ") ≡ true =
        rw f (starts_with_append (codes "bearer ") tail) in
      let left : drop 7 (strip credentials) ≡ rest =
        rw (e, sym l) (drop-length_append scheme rest) in
      bearer_token_ok raw_token
        ((is_empty_iff (strip credentials)).1
          (λ gone. present (same ∙ (ap strip (sym left ∙ ap (drop 7) gone) ∙ strip_nil))))
        ((is_empty_iff raw_token).1 present) (λ _. ap strip left ∙ sym same)
        (λ other. absurd (ground (arith, named, other)))
  Presents-bearer_token raw_token (bare unnamed same present) =
      bearer_token_ok raw_token
        ((is_empty_iff (strip credentials)).1 (λ gone. present (same ∙ gone)))
        ((is_empty_iff raw_token).1 present)
        (λ named. absurd (
          let (tail, e) = starts_with_split (lower (strip credentials)) (codes "bearer ") named in
          unnamed tail e))
        (λ _. sym same)

  pub bearer_token_iff :
      (raw_token : Text)
      → (bearer_token lower credentials ≡ ok raw_token) ↔ Presents lower credentials raw_token
  bearer_token_iff raw_token = (bearer_token-Presents raw_token, Presents-bearer_token raw_token)
