-- ===== src/Views/Settings.antt =====
-- ui/src/pages/ClusterSettingsPage.tsx, and the permissions of ui/src/pages/UserInfoPage.tsx.
pub mod Laws
use codespace_operator.Prelude.{
  ℕ, String, Bool, true, false, not, Option, none, some, List, [], ◌∷◌, map, ◌==◌, if◌then◌else◌,
  filter, lookup, length, leb,
}
use codespace_operator.Js.Sort.{sort}
use codespace_operator.Types.Introspection.{
  Action, get, list, watch, create, update, delete, scale, action_name, DomainPermissions, Domains,
  NamespacePermissions, ServiceAccountInfo, ClusterInfo, UserIntrospectionResponse,
  ServerIntrospectionResponse,
}
use codespace_operator.Cap.{is_true}
use codespace_operator.Namespaces.{or_nil}
use codespace_operator.Sessions.{or_text}

-- A label of an action, green where it is allowed and red where not.
pub data Mark : Type 0 where
  green red : String → Mark

abbrev pub mark : String × Bool → Mark
mark (action, allowed) = if allowed then green action else red action

abbrev pub marks_of : Option (List (String × Bool)) → List Mark
marks_of none = []
marks_of (some entries) = map mark entries

-- A part of a page: its spinner, its text for a missing answer, or its content.
pub data Card (A : Type 0) : Type 0 where
  spinner unavailable : Card A
  content : A → Card A

abbrev card : {A : Type 0} → Bool → Option A → Card A
card loading none = if loading then spinner else unavailable
card loading (some a) = if loading then spinner else content a

pub record Account : Type 0 where
  pub namespace_list : Bool
  pub namespace_watch : Bool
  pub session : List Mark
  pub casbin_list : Bool
  pub casbin_watch : Bool

abbrev list_of : Option NamespacePermissions → Bool
list_of none = false
list_of (some n) = is_true n.list

abbrev watch_of : Option NamespacePermissions → Bool
watch_of none = false
watch_of (some n) = is_true n.watch

abbrev casbin_of : ClusterInfo → Option NamespacePermissions
casbin_of c = elim c.casbin [ none ↦ none | some k ↦ k.namespaces ]

abbrev service_account : ServerIntrospectionResponse → Option ServiceAccountInfo
service_account s = elim s.cluster [ none ↦ none | some c ↦ c.server_service_account ]

abbrev account_view : ClusterInfo → ServiceAccountInfo → Account
account_view c a = record {
  namespace_list = list_of a.namespaces;
  namespace_watch = watch_of a.namespaces;
  session = marks_of a.session;
  casbin_list = list_of (casbin_of c);
  casbin_watch = watch_of (casbin_of c);
}

abbrev account_in : ClusterInfo → Option Account
account_in c = elim c.server_service_account [ none ↦ none | some a ↦ some (account_view c a) ]

abbrev account_of : ServerIntrospectionResponse → Option Account
account_of s = elim s.cluster [ none ↦ none | some c ↦ account_in c ]

-- "Server Service Account"
unfoldable pub account_card : Bool → Option ServerIntrospectionResponse → Card Account
account_card loading none = card loading none
account_card loading (some s) = card loading (account_of s)

pub record Capabilities : Type 0 where
  pub cluster_scope : Bool
  pub multi_tenant : Bool
  pub namespace_list : Bool
  pub session : List Mark
  pub all_count : ℕ
  pub with_sessions_count : ℕ

abbrev account_list : Option ServiceAccountInfo → Bool
account_list none = false
account_list (some a) = list_of a.namespaces

abbrev account_marks : Option ServiceAccountInfo → List Mark
account_marks none = []
account_marks (some a) = marks_of a.session

abbrev capabilities_view : ServerIntrospectionResponse → Capabilities
capabilities_view s = record {
  cluster_scope = elim s.capabilities [ none ↦ false | some c ↦ is_true c.cluster_scope ];
  multi_tenant = elim s.capabilities [ none ↦ false | some c ↦ is_true c.multi_tenant ];
  namespace_list = account_list (service_account s);
  session = account_marks (service_account s);
  all_count = elim s.namespaces [ none ↦ 0 | some n ↦ length (or_nil n.all) ];
  with_sessions_count = elim s.namespaces [ none ↦ 0 | some n ↦ length (or_nil n.with_sessions) ];
}

-- "Server Capabilities"
unfoldable pub capabilities_card : Bool → Option ServerIntrospectionResponse → Card Capabilities
capabilities_card loading none = card loading none
capabilities_card loading (some s) = card loading (some (capabilities_view s))

abbrev is_namespace : String × DomainPermissions → Bool
is_namespace (ns, v) = not (ns == "*")

abbrev settings_entry : String × DomainPermissions → String × List Mark
settings_entry (ns, v) = (ns, marks_of v.session)

abbrev settings_entries : Domains → List (String × List Mark)
settings_entries ds = map settings_entry (filter is_namespace ds)

-- "Namespace Access Matrix" of the settings
unfoldable pub settings_matrix :
    Bool → Option UserIntrospectionResponse → Card (List (String × List Mark))
settings_matrix loading none = card loading none
settings_matrix loading (some u) =
    card loading (elim u.domains [ none ↦ none | some ds ↦ some (settings_entries ds) ])

-- `actionOrder`
abbrev pub action_order : List Action
action_order = get ∷ list ∷ watch ∷ create ∷ update ∷ delete ∷ scale ∷ []

-- `actionOrder.filter((a) => a in sessionPerms).map((a) => [a, !!sessionPerms[a]])`
unfoldable pub ordered_in : List Action → List (String × Bool) → List (String × Bool)
ordered_in [] perms = []
ordered_in (a ∷ order) perms =
    let rest = ordered_in order perms in
    elim (lookup (action_name a) perms) [ none ↦ rest | some b ↦ (action_name a, b) ∷ rest ]

unfoldable pub ordered : Option (List (String × Bool)) → List (String × Bool)
ordered none = []
ordered (some perms) = ordered_in action_order perms

-- The labels of one namespace; without a known action there is one, which says so.
abbrev labels_or_none : List Mark → List Mark
labels_or_none [] = red "no-access" ∷ []
labels_or_none (m ∷ ms) = m ∷ ms

abbrev user_entry : String × DomainPermissions → String × List Mark
user_entry (ns, v) = (ns, labels_or_none (map mark (ordered v.session)))

abbrev all_entries : Option Domains → Domains
all_entries none = []
all_entries (some ds) = ds

-- "Namespace Access Matrix" of the user, or none for "No permissions"
unfoldable pub user_matrix : UserIntrospectionResponse → Option (List (String × List Mark))
user_matrix u =
    let ds = all_entries u.domains in
    let shown = map user_entry (filter is_namespace ds) in
    if leb (length ds) 0 then none else some shown
