-- ===== src/Namespaces.antt =====
-- ui/src/hooks/useNamespaces.ts: the namespaces that the header offers, and its own permission test.
pub mod Laws
pub mod Permissions
use codespace_operator.Prelude.{
  ℕ, String, Bool, true, false, not, ◌&&◌, ◌||◌, Option, none, some, List, [], ◌∷◌, ◌++◌, ◌==◌,
  if◌then◌else◌, lookup, includes, filter,
}
use codespace_operator.Js.Sort.{sort}
use codespace_operator.Types.Introspection.{
  Action, UserIntrospectionResponse, ServerIntrospectionResponse, NamespaceInfo,
  ServerNamespaceInfo, UserCapabilities, DomainPermissions, Domains,
}
use codespace_operator.Cap.{flag, is_true}

-- `xs || []`
abbrev pub or_nil : Option (List String) → List String
or_nil none = []
or_nil (some xs) = xs

abbrev pub user_allowed : Option UserIntrospectionResponse → List String
user_allowed none = []
user_allowed (some u) = elim u.namespaces [ none ↦ [] | some n ↦ or_nil n.user_allowed ]

abbrev pub server_all : Option ServerIntrospectionResponse → List String
server_all none = []
server_all (some s) = elim s.namespaces [ none ↦ [] | some n ↦ or_nil n.all ]

abbrev pub server_with_sessions : Option ServerIntrospectionResponse → List String
server_with_sessions none = []
server_with_sessions (some s) = elim s.namespaces [ none ↦ [] | some n ↦ or_nil n.with_sessions ]

abbrev pub has_cluster_scope : Option UserIntrospectionResponse → Bool
has_cluster_scope none = false
has_cluster_scope (some u) = elim u.capabilities [ none ↦ false | some c ↦ is_true c.cluster_scope ]

-- `Array.from(new Set(xs))`: the first of equal texts stays.
unfoldable pub distinct_from : List String → List String → List String
distinct_from seen [] = []
distinct_from seen (x ∷ xs) =
    let skipped = distinct_from seen xs in
    let kept = x ∷ distinct_from (x ∷ seen) xs in if includes seen x then skipped else kept

unfoldable pub distinct : List String → List String
distinct xs = distinct_from [] xs

-- `if (xs.length === 0) xs = other`
abbrev pub if_empty : List String → List String → List String
if_empty [] other = other
if_empty (x ∷ xs) other = x ∷ xs

pub record Merged : Type 0 where
  pub all_namespaces : List String
  pub session_namespaces : List String

-- The lists for a user with cluster scope, and for one without.
unfoldable pub merge_cluster : List String → List String → List String → Merged
merge_cluster accessible discovered with_sessions = record {
  all_namespaces = sort (distinct (accessible ++ discovered));
  session_namespaces = if_empty (sort with_sessions) (sort accessible);
}

unfoldable pub merge_limited : List String → List String → Merged
merge_limited accessible with_sessions =
    let sorted = sort accessible in
    record {
      all_namespaces = sorted;
      session_namespaces = if_empty (sort (filter (includes sorted) with_sessions)) sorted;
    }

abbrev pub default_namespaces : List String
default_namespaces = "default" ∷ []

-- The choice by `clusterScope`, and the default for an empty list.
unfoldable pub merge_lists : Bool → List String → List String → List String → Merged
merge_lists cluster_scope accessible discovered with_sessions =
    let found =
      if cluster_scope
      then merge_cluster accessible discovered with_sessions
      else merge_limited accessible with_sessions in
    record {
      all_namespaces = if_empty found.all_namespaces default_namespaces;
      session_namespaces = if_empty found.session_namespaces default_namespaces;
    }

-- The effect that computes both lists once both answers are there.
unfoldable pub merge :
    Option UserIntrospectionResponse → Option ServerIntrospectionResponse → Merged
merge user server =
    merge_lists (has_cluster_scope user) (user_allowed user) (server_all server)
      (server_with_sessions server)

-- `canPerformAction`
unfoldable pub can_perform_action : Option UserIntrospectionResponse → Action → String → Bool
can_perform_action none action ns = false
can_perform_action (some u) action ns =
    is_true (flag u.domains ns action) || is_true (flag u.domains "*" action)

-- `userInfo?.namespaces?.userCreatable?.sort() || []`, and the same of `userDeletable`
unfoldable pub writable_namespaces : Option UserIntrospectionResponse → List String
writable_namespaces none = []
writable_namespaces (some u) = elim u.namespaces [
  | none ↦ []
  | some n ↦ sort (or_nil n.user_creatable)
]

unfoldable pub deletable_namespaces : Option UserIntrospectionResponse → List String
deletable_namespaces none = []
deletable_namespaces (some u) = elim u.namespaces [
  | none ↦ []
  | some n ↦ sort (or_nil n.user_deletable)
]
