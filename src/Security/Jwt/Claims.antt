-- ===== src/Security/Jwt/Claims.antt =====
-- The stages that a token passes in platform_security/jwt.py.
use superoffice_ai_support_m.Common.{
  ℕ, ◌+◌, ◌≡◌, refl, sym, ap, ◌↔◌, true, false, Option, none, some, List, is_empty, Text, member,
  Dict, ℤ, Result, ok, err, >>=-eq-ok, Json, arith, Bool-cases, inl, inr,
}
use superoffice_ai_support_m.Security.Models.{SecurityContext}
use superoffice_ai_support_m.Security.Rbac.{allowed_roles}
use superoffice_ai_support_m.Security.Jwt.{
  DecodeError, JwtAuthenticator, older_than, bearer_token, check_age, judge_age, after_decode,
  decode_claims, claimed_role, claimed_subject, claimed_scopes, validate_scopes, context_of,
  accept_claims, authenticate, issued_at,
}

module _ (lower upper : Text → Text) (decode : Text → Result DecodeError (Dict Json))
    (str_of : Json → Text) (float_of : Json → Option ℤ) (authenticator : JwtAuthenticator)
    (now : ℕ) where
  -- The token is young enough, where an age is asked for and the token says when it was issued.
  abbrev pub IsRead : ℕ → Option ℤ → Type 0
  IsRead limit read = (t : ℤ) × (read ≡ some t) × (older_than now t limit ≡ false)

  abbrev pub IsYoung : Option ℕ → Option Json → Type 0
  IsYoung (some max_age) (some iat) = IsRead (max_age + authenticator.leeway_seconds) (float_of iat)
  IsYoung _ _ = Unit

  judge_age_iff :
      (claims accepted : Dict Json) (limit : ℕ) (read : Option ℤ)
      → (judge_age lower upper decode str_of float_of now limit claims read ≡ ok accepted)
        ↔ ((claims ≡ accepted) × IsRead limit read)
  unfolding judge_age
  judge_age_iff claims accepted limit none = ((λ h. cc h), (λ (same, (t, e, young)). cc e))
  judge_age_iff claims accepted limit (some t) = elim (Bool-cases (older_than now t limit)) [
    | inl old ↦ rw old (
      (λ h. cc h),
      (λ (same, (u, e, young)).
          let w : t ≡ u = cc e in
          let k : older_than now t limit ≡ false = rw w young in absurd (ground (arith, old, k))),
    )
    | inr young ↦ rw young ((λ h. (cc h, (t, refl, young))), (λ (same, k). ap ok same))
  ]

  check_age_iff :
      (claims accepted : Dict Json) (max_age : Option ℕ) (iat : Option Json)
      → (check_age lower upper decode str_of float_of authenticator now claims max_age iat
          ≡ ok accepted)
        ↔ ((claims ≡ accepted) × IsYoung max_age iat)
  unfolding check_age
  check_age_iff claims accepted (some max_age) (some iat) =
      judge_age_iff claims accepted (max_age + authenticator.leeway_seconds) (float_of iat)
  check_age_iff claims accepted (some max_age) none = ((λ h. (cc h, tt)), (λ (same, _). ap ok same))
  check_age_iff claims accepted none iat = ((λ h. (cc h, tt)), (λ (same, _). ap ok same))

  -- A token that is accepted, with what is read of it.
  pub record Accepts (fresh_id credentials : Text) (context : SecurityContext) : Type 0 where
    pub raw_token : Text
    pub claims : Dict Json
    pub scopes : List Text
    pub presented : bearer_token lower credentials ≡ ok raw_token
    pub decoded : decode raw_token ≡ ok claims
    pub young : IsYoung authenticator.max_token_age_seconds (issued_at claims)
    pub subject : is_empty (claimed_subject lower upper decode str_of float_of claims) ≡ false
    pub role : member (claimed_role lower upper decode str_of float_of claims) allowed_roles ≡ true
    pub scoped :
        validate_scopes (claimed_scopes lower upper decode str_of float_of claims) ≡ ok scopes
    pub made : context_of lower upper decode str_of float_of claims fresh_id scopes ≡ context

  after_decode_iff :
      (answer : Result DecodeError (Dict Json)) (claims : Dict Json)
      → (after_decode lower upper decode str_of float_of authenticator now answer ≡ ok claims)
        ↔ ((answer ≡ ok claims) × IsYoung authenticator.max_token_age_seconds (issued_at claims))
  unfolding after_decode
  after_decode_iff (err e) claims = ((λ h. cc h), (λ (h, young). cc h))
  after_decode_iff (ok given) claims =
      let (to, from) =
        check_age_iff given claims authenticator.max_token_age_seconds (issued_at given) in
      (
        (λ h. let (same, young) = to h in (ap ok same, rw (sym same) young)),
        (λ (h, young). let same : given ≡ claims = cc h in from (same, rw same young)),
      )

  accept_claims-Accepts :
      (fresh_id credentials raw_token : Text) (claims : Dict Json) (context : SecurityContext)
      → bearer_token lower credentials ≡ ok raw_token
      → decode raw_token ≡ ok claims
      → IsYoung authenticator.max_token_age_seconds (issued_at claims)
      → accept_claims lower upper decode str_of float_of claims fresh_id ≡ ok context
      → Accepts fresh_id credentials context
  unfolding accept_claims
  accept_claims-Accepts fresh_id credentials raw_token claims context presented decoded young h =
      elim (Bool-cases (is_empty (claimed_subject lower upper decode str_of float_of claims))) [
        | inl empty ↦ absurd (ground (arith, h, empty))
        | inr subject ↦
            elim (Bool-cases
              (member (claimed_role lower upper decode str_of float_of claims) allowed_roles)) [
                | inr other ↦ absurd (ground (arith, h, subject, other))
                | inl role ↦
                    let (scopes, scoped, made) =
                      >>=-eq-ok
                        (validate_scopes (claimed_scopes lower upper decode str_of float_of claims))
                        (λ scopes.
                          ok (context_of lower upper decode str_of float_of claims fresh_id scopes))
                        (rw (subject, role) at h) in
                    record {
                      raw_token = raw_token;
                      claims = claims;
                      scopes = scopes;
                      presented = presented;
                      decoded = decoded;
                      young = young;
                      subject = subject;
                      role = role;
                      scoped = scoped;
                      made = cc made;
                    }
              ]
      ]

  Accepts-accept_claims :
      (fresh_id credentials : Text) (context : SecurityContext)
      (a : Accepts fresh_id credentials context)
      → accept_claims lower upper decode str_of float_of a.claims fresh_id ≡ ok context
  unfolding accept_claims
  Accepts-accept_claims fresh_id credentials context a =
      rw (accept_claims, a.subject, a.role, a.scoped) (ap ok a.made)

  -- The stages of authenticate, one after another.
  pub authenticate_stages :
      (fresh_id credentials : Text) (context : SecurityContext)
      → (authenticate lower upper decode str_of float_of authenticator now fresh_id credentials
          ≡ ok context)
        ↔ Accepts fresh_id credentials context
  unfolding authenticate decode_claims
  authenticate_stages fresh_id credentials context = (
    (λ h.
        let (raw_token, presented, rest) = >>=-eq-ok (bearer_token lower credentials) _ h in
        let (claims, passed, accepted) =
          >>=-eq-ok (decode_claims lower upper decode str_of float_of authenticator now raw_token) _
            rest in
        let (decoded, young) = (after_decode_iff (decode raw_token) claims).0 passed in
        accept_claims-Accepts fresh_id credentials raw_token claims context presented decoded young
          accepted),
    (λ a.
        let passed = (after_decode_iff (decode a.raw_token) a.claims).1 (a.decoded, a.young) in
        rw (a.presented, passed) (Accepts-accept_claims fresh_id credentials context a)),
  )
