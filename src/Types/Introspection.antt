-- ===== src/Types/Introspection.antt =====
-- What the server says of the user's rights: the responses of the introspection endpoints, and the
-- combined type of ui/src/types.ts.
use codespace_operator.Prelude.{ℕ, String, List, Option, Bool}

-- The actions on sessions.
pub data Action : Type 0 where
  get list watch create update delete scale : Action

-- The property name of an action.
unfoldable pub action_name : Action → String
action_name get = "get"
action_name list = "list"
action_name watch = "watch"
action_name create = "create"
action_name update = "update"
action_name delete = "delete"
action_name scale = "scale"

pub record DomainPermissions : Type 0 where
  pub session : Option (List (String × Bool))

abbrev pub Domains : Type 0
Domains = List (String × DomainPermissions)

pub record UserInfo : Type 0 where
  pub subject : Option String
  pub username : Option String
  pub email : Option String
  pub provider : Option String
  pub roles : Option (List String)
  pub implicit_roles : Option (List String)
  pub exp : Option ℕ
  pub iat : Option ℕ

pub record NamespaceInfo : Type 0 where
  pub user_allowed : Option (List String)
  pub user_creatable : Option (List String)
  pub user_deletable : Option (List String)

pub record UserCapabilities : Type 0 where
  pub namespace_scope : Option (List String)
  pub cluster_scope : Option Bool
  pub admin_access : Option Bool

pub record UserIntrospectionResponse : Type 0 where
  pub user : Option UserInfo
  pub domains : Option Domains
  pub namespaces : Option NamespaceInfo
  pub capabilities : Option UserCapabilities

pub record NamespacePermissions : Type 0 where
  pub list : Option Bool
  pub watch : Option Bool

pub record CasbinPermissions : Type 0 where
  pub namespaces : Option NamespacePermissions

pub record ServiceAccountInfo : Type 0 where
  pub namespaces : Option NamespacePermissions
  pub session : Option (List (String × Bool))

pub record ClusterInfo : Type 0 where
  pub casbin : Option CasbinPermissions
  pub server_service_account : Option ServiceAccountInfo

pub record ServerNamespaceInfo : Type 0 where
  pub all : Option (List String)
  pub with_sessions : Option (List String)

pub record SystemCapabilities : Type 0 where
  pub cluster_scope : Option Bool
  pub multi_tenant : Option Bool

pub record ServerVersionInfo : Type 0 where
  pub version : Option String
  pub git_commit : Option String
  pub build_date : Option String

pub record AnchorMeta : Type 0 where
  pub name : Option String
  pub namespace : Option String
  pub type : Option String

pub record ServerIntrospectionResponse : Type 0 where
  pub capabilities : Option SystemCapabilities
  pub cluster : Option ClusterInfo
  pub instance_id : Option String
  pub manager : Option AnchorMeta
  pub namespaces : Option ServerNamespaceInfo
  pub version : Option ServerVersionInfo

-- The types of ui/src/types.ts for the two answers, in which most properties are required. A session
-- flag of `Record<..., boolean>` is a function of the action.
pub record UserIntrospectionUser : Type 0 where
  pub subject : String
  pub username : String
  pub email : Option String
  pub roles : List String
  pub provider : String
  pub exp : Option ℕ
  pub iat : Option ℕ
  pub implicit_roles : Option (List String)

pub record DomainSession : Type 0 where
  pub session : Action → Bool

pub record UserNamespaces : Type 0 where
  pub user_allowed : List String
  pub user_creatable : Option (List String)
  pub user_deletable : Option (List String)

pub record UserScopes : Type 0 where
  pub namespace_scope : List String
  pub cluster_scope : Bool
  pub admin_access : Bool

pub record UserIntrospection : Type 0 where
  pub user : UserIntrospectionUser
  pub domains : List (String × DomainSession)
  pub namespaces : UserNamespaces
  pub capabilities : UserScopes

-- The actions of the server's own account: "patch" stands in the place of "scale".
pub data ServiceAction : Type 0 where
  get list watch create update delete patch : ServiceAction

-- `Record<"list" | "watch", boolean>`
pub record NamespaceFlags : Type 0 where
  pub list : Bool
  pub watch : Bool

pub record CasbinFlags : Type 0 where
  pub namespaces : NamespaceFlags

pub record ServiceAccountFlags : Type 0 where
  pub namespaces : NamespaceFlags
  pub session : ServiceAction → Bool

pub record ServerCluster : Type 0 where
  pub casbin : CasbinFlags
  pub server_service_account : ServiceAccountFlags

pub record ServerCapabilities : Type 0 where
  pub multi_tenant : Bool

pub record ServerIntrospection : Type 0 where
  pub cluster : ServerCluster
  pub namespaces : ServerNamespaceInfo
  pub capabilities : ServerCapabilities
  pub version : Option ServerVersionInfo

pub record CombinedNamespaces : Type 0 where
  pub all : Option (List String)
  pub with_sessions : Option (List String)
  pub user_allowed : Option (List String)
  pub user_creatable : Option (List String)
  pub user_deletable : Option (List String)

pub record CombinedCapabilities : Type 0 where
  pub namespace_scope : Option (List String)
  pub cluster_scope : Option Bool
  pub admin_access : Option Bool
  pub multi_tenant : Option Bool

-- The combined answer of the deprecated endpoint, which cap.ts and useSessions.ts read. They guard
-- against a missing `domains` and `namespaces`, so both may be missing here.
pub record Introspection : Type 0 where
  pub user : UserInfo
  pub cluster : Option ClusterInfo
  pub domains : Option Domains
  pub namespaces : Option CombinedNamespaces
  pub capabilities : CombinedCapabilities
  pub subjects : Option (List (String × Domains))
