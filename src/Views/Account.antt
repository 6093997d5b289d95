-- ===== src/Views/Account.antt =====
-- ui/src/pages/UserInfoPage.tsx: the cards "Profile" and "Permissions", without the matrix; and the card
-- "System Info" of ui/src/pages/ClusterSettingsPage.tsx.
pub mod Laws
use Prim.Native.String.{[], ◌∷◌}
use mathlib.Core.List
use codespace_operator.Prelude.{
  ℕ, zero, suc, String, Bool, true, false, not, ◌&&◌, Option, none, some, List, ◌==◌, if◌then◌else◌,
  length,
}
use codespace_operator.Js.Sort.{sort}
use codespace_operator.Js.Json.{Json, truthy, to_text}
use codespace_operator.Types.Introspection.{
  UserInfo, UserCapabilities, NamespaceInfo, ClusterInfo, NamespacePermissions,
  UserIntrospectionResponse, ServerIntrospectionResponse, ServerVersionInfo,
}
use codespace_operator.Cap.{is_true}
use codespace_operator.Sessions.{or_text, truthy_text}

pub record Profile : Type 0 where
  pub user : String
  pub subject : Option String
  pub provider : Option String
  pub email : Option String
  -- an empty list is not shown
  pub roles : List String
  pub inherited_roles : List String

abbrev listed : Option (List String) → List String
listed none = List.[]
listed (some xs) = xs

-- `user || "Not authenticated"`, where the hook holds whatever the server sent
abbrev user_text : Json → String
user_text user = if truthy user then to_text user else "Not authenticated"

abbrev profile_with : Json → UserInfo → Profile
profile_with user u = record {
  user = or_text u.username (user_text user);
  subject = truthy_text u.subject;
  provider = truthy_text u.provider;
  email = truthy_text u.email;
  roles = listed u.roles;
  inherited_roles = listed u.implicit_roles;
}

abbrev profile_without : Json → Profile
profile_without user = record {
  user = user_text user;
  subject = none;
  provider = none;
  email = none;
  roles = List.[];
  inherited_roles = List.[];
}

unfoldable pub profile : Option UserIntrospectionResponse → Json → Profile
profile none user = profile_without user
profile (some info) user = elim info.user [
  | none ↦ profile_without user
  | some u ↦ profile_with user u
]

-- The mark of `namespaces.list`: what the server may, or why that is not known.
pub data ServerMark : Type 0 where
  mark : Bool → ServerMark
  tooltip : String → ServerMark

pub record Summary : Type 0 where
  pub cluster_access : Bool
  pub admin_access : Bool
  pub accessible : ℕ
  -- sorted; an empty list is shown as "None"
  pub creatable : List String
  pub namespaces_list : ServerMark

pub data Permissions : Type 0 where
  spinner blank : Permissions
  failed : String → Permissions
  summary : Summary → Permissions

abbrev casbin_list : ServerIntrospectionResponse → Bool
casbin_list s = elim s.cluster [
  | none ↦ false
  | some c ↦ elim c.casbin [
    | none ↦ false
    | some k ↦ elim k.namespaces [ none ↦ false | some n ↦ is_true n.list ]
  ]
]

unfoldable pub server_mark : Option ServerIntrospectionResponse → Option String → ServerMark
server_mark (some s) error = mark (casbin_list s)
server_mark none error = tooltip (or_text error "Unavailable")

abbrev summary_of : UserIntrospectionResponse → ServerMark → Summary
summary_of info shown = record {
  cluster_access = elim info.capabilities [ none ↦ false | some c ↦ is_true c.cluster_scope ];
  admin_access = elim info.capabilities [ none ↦ false | some c ↦ is_true c.admin_access ];
  accessible = elim info.capabilities [ none ↦ 0 | some c ↦ length (listed c.namespace_scope) ];
  creatable = elim info.namespaces [ none ↦ List.[] | some n ↦ sort (listed n.user_creatable) ];
  namespaces_list = shown;
}

-- With `loading` and the error of each of the two introspection hooks.
unfoldable pub permissions :
    Bool
    → Bool
    → Option UserIntrospectionResponse
    → Option String
    → Option ServerIntrospectionResponse
    → Option String
    → Permissions
permissions user_loading server_loading user_info user_error server_info server_error =
    let answered : Permissions = elim user_info [
      | some info ↦ summary (summary_of info (server_mark server_info server_error))
      | none ↦ elim (truthy_text user_error) [ none ↦ blank | some m ↦ failed m ]
    ] in
    if user_loading then spinner else if server_loading then spinner else answered

-- `s.substring(0, n)`
unfoldable pub prefix : ℕ → String → String
prefix zero s = ""
prefix (suc n) [] = ""
prefix (suc n) (c ∷ s) = c ∷ prefix n s

pub record SystemInfo : Type 0 where
  pub version : String
  pub build_date : String
  pub git_commit : String
  pub api_version : String
  pub authentication : String

abbrev version_of : Option ServerIntrospectionResponse → Option ServerVersionInfo
version_of none = none
version_of (some s) = s.version

unfoldable pub system_info : Option ServerIntrospectionResponse → SystemInfo
system_info server =
    let v = version_of server in
    record {
      version = or_text (elim v [ none ↦ none | some i ↦ i.version ]) "1.0.0";
      build_date = or_text (elim v [ none ↦ none | some i ↦ i.build_date ]) "Unknown";
      git_commit =
          or_text
            (elim v [
              | none ↦ none
              | some i ↦ elim i.git_commit [ none ↦ none | some commit ↦ some (prefix 8 commit) ]
            ])
            "Unknown";
      api_version = "codespace.codespace.dev/v1";
      authentication = "RBAC Enabled";
    }
