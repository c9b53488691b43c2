-- ===== src/Security/Jwt.antt =====
-- platform_security/jwt.py: the claims of a token and the context that is made of them. PyJWT's
-- decode, with the key, the algorithms, the issuer and the audience of the authenticator, is the
-- argument `decode`; str and float of other values than texts are `str_of` and `float_of` (`none`
-- where float raises), in whole seconds. An attribute is kept by its truth value. pydantic trims the
-- texts of the identity and refuses a scope that is not a text.
pub mod Bearer
pub mod Scopes
pub mod Claims
pub mod Acceptance
use superoffice_ai_support_m.Common.{
  ℕ, ◌+◌, Bool, true, false, not, ◌&&◌, Option, none, some, List, [], ◌∷◌, ◌++◌, any, is_empty,
  Text, codes, strip, is_blank, text_eq, member, starts_with, drop, ltb, ◌==◌, Dict, lookup,
  has_key, ℤ, pos, negsuc, Result, ok, err, ◌>>=◌, if◌then◌else◌, Json, JsonItems, null, boolean,
  number, text, array, object, end_items, item, end_fields, field,
}
use superoffice_ai_support_m.Security.Models.{PrincipalIdentity, SecurityContext}
use superoffice_ai_support_m.Security.Rbac.{allowed_roles, production_write, attachment_access}

-- What PyJWT's decode raises, as the code tells it apart.
pub data DecodeError : Type 0 where
  expired_signature invalid_issuer invalid_audience : DecodeError
  immature_signature invalid_issued_at other_jwt_error other_exception : DecodeError

-- The AuthenticationErrors by their messages, and then the errors that leave authenticate as they
-- are: ValueError or TypeError of float, and pydantic's ValidationError.
pub data AuthError : Type 0 where
  missing_token empty_bearer token_expired issuer_mismatch audience_mismatch : AuthError
  invalid_timestamp invalid_token unexpected_decoding token_too_old : AuthError
  missing_subject invalid_role : AuthError
  iat_not_a_number scope_not_a_text : AuthError

pub record JwtAuthenticator : Type 0 where
  pub leeway_seconds : ℕ
  pub max_token_age_seconds : Option ℕ

abbrev pub decode_failure : DecodeError → AuthError
decode_failure expired_signature = token_expired
decode_failure invalid_issuer = issuer_mismatch
decode_failure invalid_audience = audience_mismatch
decode_failure immature_signature = invalid_timestamp
decode_failure invalid_issued_at = invalid_timestamp
decode_failure other_jwt_error = invalid_token
decode_failure other_exception = unexpected_decoding

-- bool(value)
abbrev pub truthy : Json → Bool
truthy null = false
truthy (boolean b) = b
truthy (number (pos n)) = not (n == 0)
truthy (number (negsuc n)) = true
truthy (text t) = not (is_empty t)
truthy (array end_items) = false
truthy (array (item _ _)) = true
truthy (object end_fields) = false
truthy (object (field _ _ _)) = true

-- bool(claims.get(name, False)), and the truth of claims.get(name)
unfoldable pub flag : Text → Dict Json → Bool
flag name claims = elim (lookup name claims) [ none ↦ false | some value ↦ truthy value ]

abbrev pub items_of : JsonItems → List Json
items_of end_items = []
items_of (item value items) = value ∷ items_of items

-- list(raw_scopes) if isinstance(raw_scopes, (list, tuple)) else []
abbrev pub raw_scopes : Option Json → List Json
raw_scopes (some (array items)) = items_of items
raw_scopes _ = []

abbrev pub is_text : Text → Json → Bool
is_text name (text t) = text_eq name t
is_text name _ = false

unfoldable pub append_scope : Text → Bool → List Json → List Json
append_scope name set scopes =
    if set && not (any (is_text name) scopes) then scopes ++ text name ∷ [] else scopes

-- The scopes as PrincipalIdentity validates them.
unfoldable pub validate_scopes : List Json → Result AuthError (List Text)
validate_scopes [] = ok []
validate_scopes (text t ∷ scopes) = validate_scopes scopes >>= λ rest. ok (strip t ∷ rest)
validate_scopes (_ ∷ scopes) = err scope_not_a_text

-- now - t > limit
abbrev pub older_than : ℕ → ℤ → ℕ → Bool
older_than now (pos t) limit = ltb (t + limit) now
older_than now (negsuc t) limit = ltb limit (now + t + 1)

abbrev pub not_none : Option Json → Option Json
not_none (some null) = none
not_none claim = claim

-- claims.get("iat") that is not None
abbrev pub issued_at : Dict Json → Option Json
issued_at claims = not_none (lookup (codes "iat") claims)

-- {k: v for k, v in claims.items() if k not in ("sub", "role")} has an entry.
abbrev pub other_claims : Dict Json → Bool
other_claims [] = false
other_claims ((key, value) ∷ claims) =
    let rest = other_claims claims in
    if member key (codes "sub" ∷ codes "role" ∷ []) then rest else true

-- The raw token of the header.
unfoldable pub bearer_token : (Text → Text) → Text → Result AuthError Text
unfolding is_blank strip starts_with
bearer_token lower credentials =
    let stripped = strip credentials in
    let raw_token =
      if starts_with (lower stripped) (codes "bearer ")
      then strip (drop 7 stripped)
      else stripped in
    if is_blank credentials
    then err missing_token
    else if is_empty raw_token
    then err empty_bearer
    else ok raw_token

module _ (lower upper : Text → Text) (decode : Text → Result DecodeError (Dict Json))
    (str_of : Json → Text) (float_of : Json → Option ℤ) where
  abbrev to_str : Json → Text
  to_str (text t) = t
  to_str value = str_of value

  -- str(claims.get(name, default))
  unfoldable pub claim_text : Text → Text → Dict Json → Text
  claim_text name default claims = elim (lookup name claims) [
    | none ↦ default
    | some value ↦ to_str value
  ]

  -- The maximum age against the claim, and then against its value as a number.
  unfoldable pub judge_age : ℕ → ℕ → Dict Json → Option ℤ → Result AuthError (Dict Json)
  judge_age now limit claims none = err iat_not_a_number
  judge_age now limit claims (some t) =
      if older_than now t limit then err token_too_old else ok claims

  unfoldable pub check_age :
      JwtAuthenticator → ℕ → Dict Json → Option ℕ → Option Json → Result AuthError (Dict Json)
  unfolding judge_age
  check_age authenticator now claims (some max_age) (some iat) =
      judge_age now (max_age + authenticator.leeway_seconds) claims (float_of iat)
  check_age authenticator now claims _ _ = ok claims

  unfoldable pub after_decode :
      JwtAuthenticator → ℕ → Result DecodeError (Dict Json) → Result AuthError (Dict Json)
  unfolding check_age
  after_decode authenticator now (err e) = err (decode_failure e)
  after_decode authenticator now (ok claims) =
      check_age authenticator now claims authenticator.max_token_age_seconds (issued_at claims)

  unfoldable pub decode_claims : JwtAuthenticator → ℕ → Text → Result AuthError (Dict Json)
  unfolding after_decode
  decode_claims authenticator now raw_token = after_decode authenticator now (decode raw_token)

  unfoldable pub claimed_role : Dict Json → Text
  unfolding claim_text strip
  claimed_role claims = strip (upper (claim_text (codes "role") (codes "L1") claims))

  unfoldable pub claimed_subject : Dict Json → Text
  unfolding claim_text strip
  claimed_subject claims = strip (claim_text (codes "sub") [] claims)

  unfoldable pub claimed_scopes : Dict Json → List Json
  unfolding append_scope flag
  claimed_scopes claims = append_scope attachment_access (flag attachment_access claims) (
      append_scope production_write (flag production_write claims)
        (raw_scopes (lookup (codes "scopes") claims)))

  -- The context of claims that were accepted.
  unfoldable pub context_of : Dict Json → Text → List Text → SecurityContext
  unfolding claimed_role claimed_subject claim_text flag
  context_of claims fresh_id scopes = record {
    principal = record {
      user_id = claimed_subject claims;
      role = claimed_role claims;
      scopes = scopes;
      auth_method = codes "jwt";
    };
    token_id = strip (claim_text (codes "jti") fresh_id claims);
    is_authenticated = true;
    attributes =
        (production_write, flag production_write claims)
        ∷ (attachment_access, flag attachment_access claims)
        ∷ (codes "issuer", flag (codes "iss") claims)
        ∷ (codes "audience", flag (codes "aud") claims)
        ∷ (codes "claims", other_claims claims)
        ∷ [];
  }

  unfoldable pub accept_claims : Dict Json → Text → Result AuthError SecurityContext
  unfolding claimed_subject claimed_role claimed_scopes validate_scopes context_of
  accept_claims claims fresh_id =
      if is_empty (claimed_subject claims)
      then err missing_subject
      else if not (member (claimed_role claims) allowed_roles)
      then err invalid_role
      else (validate_scopes (claimed_scopes claims) >>= λ scopes.
          ok (context_of claims fresh_id scopes))

  unfoldable pub authenticate :
      JwtAuthenticator → ℕ → Text → Text → Result AuthError SecurityContext
  unfolding bearer_token decode_claims accept_claims
  authenticate authenticator now fresh_id credentials = do
    raw_token ← bearer_token lower credentials
    claims ← decode_claims authenticator now raw_token
    accept_claims claims fresh_id
