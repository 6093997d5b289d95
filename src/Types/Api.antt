-- ===== src/Types/Api.antt =====
-- The other schemas of ui/src/types/api.gen.ts: the objects of the cluster as the API gives them, and the
-- small requests and answers.
use codespace_operator.Prelude.{String, List, Option, Bool}
use codespace_operator.Prelude.Int.{ℤ}
use codespace_operator.Types.Session.{Labels}
use codespace_operator.Types.Create.{AuthSpec, NetSpec, PvcSpec, ProfileSpec}

pub record OwnerReference : Type 0 where
  pub api_version : Option String
  pub block_owner_deletion : Option Bool
  pub controller : Option Bool
  pub kind : Option String
  pub name : Option String
  pub uid : Option String

pub data ManagedFieldsOperationType : Type 0 where
  apply update : ManagedFieldsOperationType

-- `v1.FieldsV1` is an object without properties.
pub record FieldsV1 : Type 0 where

pub record ManagedFieldsEntry : Type 0 where
  pub api_version : Option String
  pub fields_type : Option String
  pub fields_v1 : Option FieldsV1
  pub manager : Option String
  pub operation : Option ManagedFieldsOperationType
  pub subresource : Option String
  pub time : Option String

pub record ObjectMeta : Type 0 where
  pub annotations : Option Labels
  pub creation_timestamp : Option String
  pub deletion_grace_period_seconds : Option ℤ
  pub deletion_timestamp : Option String
  pub finalizers : Option (List String)
  pub generate_name : Option String
  pub generation : Option ℤ
  pub labels : Option Labels
  pub managed_fields : Option (List ManagedFieldsEntry)
  pub name : Option String
  pub namespace : Option String
  pub owner_references : Option (List OwnerReference)
  pub resource_version : Option String
  pub self_link : Option String
  pub uid : Option String

pub record SessionSpec : Type 0 where
  pub auth : Option AuthSpec
  pub home : Option PvcSpec
  pub networking : Option NetSpec
  pub profile : Option ProfileSpec
  pub replicas : Option ℤ
  pub scratch : Option PvcSpec

pub record SessionStatus : Type 0 where
  pub phase : Option String
  pub reason : Option String
  pub url : Option String

pub record Session : Type 0 where
  pub api_version : Option String
  pub kind : Option String
  pub metadata : Option ObjectMeta
  pub spec : Option SessionSpec
  pub status : Option SessionStatus

pub record ErrorResponse : Type 0 where
  pub error : Option String

pub record PasswordLoginRequest : Type 0 where
  pub password : String
  pub username : String

pub record PermissionCheck : Type 0 where
  pub action : Option String
  pub allowed : Option Bool
  pub namespace : Option String
  pub resource : Option String

pub record SessionListResponse : Type 0 where
  pub filtered : Option Bool
  pub items : Option (List Session)
  pub namespaces : Option (List String)
  pub total : Option ℤ

pub record SessionScaleRequest : Type 0 where
  pub replicas : Option ℤ

pub record UserPermissions : Type 0 where
  pub namespaces : Option (List (String × List String))
  pub permissions : Option (List PermissionCheck)
  pub roles : Option (List String)
  pub subject : Option String
