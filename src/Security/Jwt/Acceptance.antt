-- ===== src/Security/Jwt/Acceptance.antt =====
-- Which tokens platform_security/jwt.py accepts, and the context that it makes of one.
use superoffice_ai_support_m.Common.{
  ℕ, suc, ◌+◌, ◌≤◌, ◌≡◌, ◌≢◌, refl, sym, ap, ◌∙◌, ◌↔◌, ◌⊎◌, true, false, Option, none, some, List,
  [], ◌∷◌, map, is_empty, Text, text_eq_iff, codes, strip, member, Dict, lookup, ℤ, pos, negsuc,
  Result, ok, Json, null, boolean, number, text, array, object, arith,
}
use superoffice_ai_support_m.Security.Models.{SecurityContext}
use superoffice_ai_support_m.Security.Rbac.{allowed_roles, production_write, attachment_access}
use superoffice_ai_support_m.Security.Jwt.{
  DecodeError, JwtAuthenticator, older_than, other_claims, flag, claim_text, claimed_role,
  claimed_subject, claimed_scopes, validate_scopes, context_of, authenticate, not_none,
}
use superoffice_ai_support_m.Security.Jwt.Bearer.{Presents, bearer_token_iff}
use superoffice_ai_support_m.Security.Jwt.Scopes.{Lists, with_scope, validate_scopes_iff}
use superoffice_ai_support_m.Security.Jwt.Claims.{IsYoung, IsRead, Accepts, authenticate_stages}

is_empty_iff : (s : Text) → (is_empty s ≡ false) ↔ (s ≢ [])
is_empty_iff [] = ((λ h. cc h), (λ differs. absurd (differs refl)))
is_empty_iff (c ∷ s) = ((λ h e. cc e), (λ differs. refl))

-- One of the three roles.
abbrev pub IsRole : Text → Type 0
IsRole role = (role ≡ codes "L1") ⊎ ((role ≡ codes "L2") ⊎ (role ≡ codes "L3"))

allowed_roles_iff : (role : Text) → (member role allowed_roles ≡ true) ↔ IsRole role
unfolding member
allowed_roles_iff role = (
  (λ h. ground (
    arith,
    h,
    text_eq_iff role (codes "L1"),
    text_eq_iff role (codes "L2"),
    text_eq_iff role (codes "L3"),
  )),
  (λ r. ground (
    arith,
    r,
    text_eq_iff role (codes "L1"),
    text_eq_iff role (codes "L2"),
    text_eq_iff role (codes "L3"),
  )),
)

-- The time t is at most `limit` before now.
abbrev pub NotOlder : ℕ → ℤ → ℕ → Type 0
NotOlder now (pos t) limit = now ≤ t + limit
NotOlder now (negsuc t) limit = now + suc t ≤ limit

older_than_iff :
    (now : ℕ) (t : ℤ) (limit : ℕ) → (older_than now t limit ≡ false) ↔ NotOlder now t limit
older_than_iff now (pos t) limit = ((λ h. ground (arith, h)), (λ h. ground (arith, h)))
older_than_iff now (negsuc t) limit = ((λ h. ground (arith, h)), (λ h. ground (arith, h)))

module _ (lower upper : Text → Text) (decode : Text → Result DecodeError (Dict Json))
    (str_of : Json → Text) (float_of : Json → Option ℤ) (authenticator : JwtAuthenticator)
    (now : ℕ) where
  -- The text of a claim, or the default of a claim that is not there.
  abbrev pub said : Option Json → Text → Text
  said none default = default
  said (some (text t)) default = t
  said (some value) default = str_of value

  -- float reads the claim as a time that is not older than the limit.
  abbrev pub IsRecent : ℕ → Json → Type 0
  IsRecent limit iat = (t : ℤ) × (float_of iat ≡ some t) × NotOlder now t limit

  -- A maximum age is put only to a claim that is there and not null.
  abbrev pub IsYoungEnough : Option ℕ → Option Json → Type 0
  IsYoungEnough none iat = Unit
  IsYoungEnough (some max_age) none = Unit
  IsYoungEnough (some max_age) (some null) = Unit
  IsYoungEnough (some max_age) (some value) =
      IsRecent (max_age + authenticator.leeway_seconds) value

  -- A token that is accepted: what it says, and the context that comes of it.
  pub record IsAccepted (fresh_id credentials : Text) (context : SecurityContext) : Type 0 where
    pub raw_token : Text
    pub claims : Dict Json
    pub given : List Text
    pub presented : Presents lower credentials raw_token
    pub decoded : decode raw_token ≡ ok claims
    pub young : IsYoungEnough authenticator.max_token_age_seconds (lookup (codes "iat") claims)
    pub subject : strip (said (lookup (codes "sub") claims) []) ≢ []
    pub role : IsRole (strip (upper (said (lookup (codes "role") claims) (codes "L1"))))
    pub lists : Lists (lookup (codes "scopes") claims) given
    pub made : context ≡ record {
      principal = record {
        user_id = strip (said (lookup (codes "sub") claims) []);
        role = strip (upper (said (lookup (codes "role") claims) (codes "L1")));
        scopes = map strip (
            with_scope attachment_access
              (flag attachment_access claims)
              (with_scope production_write (flag production_write claims) given));
        auth_method = codes "jwt";
      };
      token_id = strip (said (lookup (codes "jti") claims) fresh_id);
      is_authenticated = true;
      attributes =
          (production_write, flag production_write claims)
          ∷ (attachment_access, flag attachment_access claims)
          ∷ (codes "issuer", flag (codes "iss") claims)
          ∷ (codes "audience", flag (codes "aud") claims)
          ∷ (codes "claims", other_claims claims)
          ∷ [];
    }

  said_found :
      (found : Option Json) (name default : Text) (claims : Dict Json)
      → lookup name claims ≡ found
      → claim_text lower upper decode str_of float_of name default claims ≡ said found default
  unfolding claim_text
  said_found none name default claims e = rw (claim_text, e) refl
  said_found (some null) name default claims e = rw (claim_text, e) refl
  said_found (some (boolean b)) name default claims e = rw (claim_text, e) refl
  said_found (some (number n)) name default claims e = rw (claim_text, e) refl
  said_found (some (text t)) name default claims e = rw (claim_text, e) refl
  said_found (some (array items)) name default claims e = rw (claim_text, e) refl
  said_found (some (object fields)) name default claims e = rw (claim_text, e) refl

  claim_text-said :
      (name default : Text) (claims : Dict Json)
      → claim_text lower upper decode str_of float_of name default claims
        ≡ said (lookup name claims) default
  claim_text-said name default claims = said_found (lookup name claims) name default claims refl

  IsRead-iff :
      (limit : ℕ) (iat : Json)
      → IsRead lower upper decode str_of float_of authenticator now limit (float_of iat)
        ↔ IsRecent limit iat
  IsRead-iff limit iat = (
    (λ (t, e, young). (t, e, (older_than_iff now t limit).0 young)),
    (λ (t, e, recent). (t, e, (older_than_iff now t limit).1 recent)),
  )

  IsYoung-iff :
      (max_age : Option ℕ) (iat : Option Json)
      → IsYoung lower upper decode str_of float_of authenticator now max_age (not_none iat)
        ↔ IsYoungEnough max_age iat
  IsYoung-iff none iat = ((λ y. tt), (λ y. tt))
  IsYoung-iff (some max_age) none = ((λ y. y), (λ y. y))
  IsYoung-iff (some max_age) (some null) = ((λ y. y), (λ y. y))
  IsYoung-iff (some max_age) (some (boolean b)) = IsRead-iff _ (boolean b)
  IsYoung-iff (some max_age) (some (number n)) = IsRead-iff _ (number n)
  IsYoung-iff (some max_age) (some (text t)) = IsRead-iff _ (text t)
  IsYoung-iff (some max_age) (some (array items)) = IsRead-iff _ (array items)
  IsYoung-iff (some max_age) (some (object fields)) = IsRead-iff _ (object fields)

  subject_said :
      (claims : Dict Json)
      → claimed_subject lower upper decode str_of float_of claims
        ≡ strip (said (lookup (codes "sub") claims) [])
  unfolding claimed_subject
  subject_said claims = ap strip (claim_text-said (codes "sub") [] claims)

  role_said :
      (claims : Dict Json)
      → claimed_role lower upper decode str_of float_of claims
        ≡ strip (upper (said (lookup (codes "role") claims) (codes "L1")))
  unfolding claimed_role
  role_said claims = ap (λ r. strip (upper r)) (claim_text-said (codes "role") (codes "L1") claims)

  scopes_iff :
      (claims : Dict Json) (scopes : List Text)
      → (validate_scopes (claimed_scopes lower upper decode str_of float_of claims) ≡ ok scopes) ↔ (
          (given : List Text) × Lists (lookup (codes "scopes") claims) given
          × (scopes
              ≡ map strip (
                  with_scope attachment_access
                    (flag attachment_access claims)
                    (with_scope production_write (flag production_write claims) given))))
  unfolding claimed_scopes
  scopes_iff claims scopes =
      validate_scopes_iff production_write attachment_access (flag production_write claims)
        (flag attachment_access claims) (lookup (codes "scopes") claims) scopes

  Accepts-IsAccepted :
      (fresh_id credentials : Text) (context : SecurityContext)
      → Accepts lower upper decode str_of float_of authenticator now fresh_id credentials context
      → IsAccepted fresh_id credentials context
  Accepts-IsAccepted fresh_id credentials context a =
      let claims = a.claims in
      let (given, lists, e) = (scopes_iff claims a.scopes).0 a.scoped in
      record {
        raw_token = a.raw_token;
        claims = claims;
        given = given;
        presented = (bearer_token_iff lower credentials a.raw_token).0 a.presented;
        decoded = a.decoded;
        young =
            (IsYoung-iff authenticator.max_token_age_seconds (lookup (codes "iat") claims)).0
              a.young;
        subject = (is_empty_iff _).0 (rw (sym (subject_said claims)) a.subject);
        role = (allowed_roles_iff _).0 (rw (sym (role_said claims)) a.role);
        lists = lists;
        made =
            sym a.made
            ∙ (unfold context_of in
                rw
                  (
                    subject_said claims,
                    role_said claims,
                    claim_text-said (codes "jti") fresh_id claims,
                    e,
                  )
                  refl);
      }

  IsAccepted-Accepts :
      (fresh_id credentials : Text) (context : SecurityContext)
      → IsAccepted fresh_id credentials context
      → Accepts lower upper decode str_of float_of authenticator now fresh_id credentials context
  IsAccepted-Accepts fresh_id credentials context a =
      let claims = a.claims in
      let scopes = map strip (
        with_scope attachment_access (flag attachment_access claims)
          (with_scope production_write (flag production_write claims) a.given)) in
      record {
        raw_token = a.raw_token;
        claims = claims;
        scopes = scopes;
        presented = (bearer_token_iff lower credentials a.raw_token).1 a.presented;
        decoded = a.decoded;
        young =
            (IsYoung-iff authenticator.max_token_age_seconds (lookup (codes "iat") claims)).1
              a.young;
        subject = rw (subject_said claims) ((is_empty_iff _).1 a.subject);
        role = rw (role_said claims) ((allowed_roles_iff _).1 a.role);
        scoped = (scopes_iff claims scopes).1 (a.given, a.lists, refl);
        made =
            unfold context_of in
            rw
              (subject_said claims, role_said claims, claim_text-said (codes "jti") fresh_id claims)
              (sym a.made);
      }

  -- authenticate returns a context exactly when: the header, trimmed and without the seven
  -- characters of "bearer " if it begins with them in any case, is a token that PyJWT decodes;
  -- where a maximum age is set and the claim iat is there and not null, float reads it as a time
  -- that is at most that age and the leeway before now; the trimmed claim sub is not empty; the
  -- claim role, L1 if there is none, is L1, L2 or L3 when upper-cased and trimmed; and the claim
  -- scopes, if it is an array, is one of texts. The context has that subject and role, those
  -- scopes with production_write and attachment_access added once where their claims are true in
  -- Python, and attributes that say which claims are true.
  pub authenticate_iff :
      (fresh_id credentials : Text) (context : SecurityContext)
      → (authenticate lower upper decode str_of float_of authenticator now fresh_id credentials
          ≡ ok context)
        ↔ IsAccepted fresh_id credentials context
  authenticate_iff fresh_id credentials context =
      let (to, from) =
        authenticate_stages lower upper decode str_of float_of authenticator now fresh_id
          credentials context in
      (
        (λ h. Accepts-IsAccepted fresh_id credentials context (to h)),
        (λ a. from (IsAccepted-Accepts fresh_id credentials context a)),
      )
