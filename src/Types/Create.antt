-- ===== src/Types/Create.antt =====
-- Requests and small responses of ui/src/types/api.gen.ts.
use codespace_operator.Prelude.{String, List, Option, Bool}
use codespace_operator.Prelude.Int.{ℤ}
use codespace_operator.Types.Session.{Labels}

pub record OidcRef : Type 0 where
  pub client_id_secret : Option String
  pub client_secret_ref : Option String
  pub issuer_url : Option String

pub record AuthSpec : Type 0 where
  pub mode : Option String
  pub oidc : Option OidcRef

pub record NetSpec : Type 0 where
  pub annotations : Option Labels
  pub host : Option String
  pub tls_secret_name : Option String

pub record PvcSpec : Type 0 where
  pub mount_path : Option String
  pub size : Option String
  pub storage_class_name : Option String

pub record ProfileSpec : Type 0 where
  pub cmd : Option (List String)
  pub ide : Option String
  pub image : Option String

-- `Partial<SessionCreateRequest>`, which the create action takes: every property may be missing.
pub record SessionCreateRequest : Type 0 where
  pub auth : Option AuthSpec
  pub home : Option PvcSpec
  pub name : Option String
  pub namespace : Option String
  pub networking : Option NetSpec
  pub profile : Option ProfileSpec
  pub replicas : Option ℤ
  pub scratch : Option PvcSpec

pub record AuthFeatures : Type 0 where
  pub local_login_enabled : Option Bool
  pub local_login_path : Option String
  pub sso_enabled : Option Bool
  pub sso_login_path : Option String

pub record LoginResponse : Type 0 where
  pub roles : Option (List String)
  pub token : Option String
  pub user : Option String
