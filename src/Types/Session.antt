-- ===== src/Types/Session.antt =====
-- ui/src/types.ts: the session as the UI sees it, and the events of the stream.
use codespace_operator.Prelude.{String, List, Option}
use codespace_operator.Prelude.Int.{ℤ}

-- A plain object with text values.
abbrev pub Labels : Type 0
Labels = List (String × String)

pub record Metadata : Type 0 where
  pub name : String
  pub namespace : String
  pub labels : Option Labels
  pub annotations : Option Labels

pub record Profile : Type 0 where
  pub ide : String
  pub image : String
  pub cmd : Option (List String)

pub record Networking : Type 0 where
  pub host : Option String

pub record Spec : Type 0 where
  pub profile : Profile
  pub networking : Option Networking
  pub replicas : Option ℤ

pub record Status : Type 0 where
  pub phase : Option String
  pub url : Option String
  pub reason : Option String

pub record UiSession : Type 0 where
  pub metadata : Metadata
  pub spec : Spec
  pub status : Option Status

pub record SessionEvent : Type 0 where
  pub type : String
  pub object : UiSession

pub record SessionDeleteResponse : Type 0 where
  pub status : String
  pub name : String
  pub namespace : String
