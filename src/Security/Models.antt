-- ===== src/Security/Models.antt =====
-- platform_security/models.py and the identity of platform_core/models.py. An attribute is kept by
-- its truth value, which is all that the policy engine reads of it.
use superoffice_ai_support_m.Common.{Bool, Option, Text, Dict, List}

pub record PrincipalIdentity : Type 0 where
  pub user_id : Text
  pub role : Text
  pub scopes : List Text
  pub auth_method : Text

pub record SecurityContext : Type 0 where
  pub principal : PrincipalIdentity
  pub token_id : Text
  pub is_authenticated : Bool
  pub attributes : Dict Bool

pub data DenialCode : Type 0 where
  unknown_tool insufficient_role missing_production_write attachment_access_disabled : DenialCode
  missing_attachment_access unauthenticated : DenialCode

-- The reason, a sentence for the caller, is left out.
pub record AuthorizationDecision : Type 0 where
  pub is_allowed : Bool
  pub denial_code : Option DenialCode
