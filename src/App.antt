-- ===== src/App.antt =====
-- ui/src/App.tsx: the namespace that the app stands on, the gate before the protected routes, and the
-- toasts for failed introspection.
pub mod Namespace
pub mod Routes
pub mod Chrome
use Prim.Native.String.{◌++◌}
use codespace_operator.Prelude.{
  ℕ, String, Bool, true, false, not, ◌&&◌, ◌||◌, Option, none, some, List, [], ◌∷◌, ◌==◌,
  if◌then◌else◌, includes, find, lookup, insert,
}
use codespace_operator.Js.Sort.{sort}
use codespace_operator.Js.Text.{includes_text, has_prefix}
use codespace_operator.Types.Introspection.{watch, UserIntrospectionResponse}
use codespace_operator.Cap.{flag, is_true}
use codespace_operator.Sessions.{or_text}
use codespace_operator.Alerts.{Alert, danger, push}

-- `!!userIx?.domains?.["*"]?.session?.watch`
unfoldable pub allow_all : UserIntrospectionResponse → Bool
allow_all u = is_true (flag u.domains "*" watch)

unfoldable pub accessible : UserIntrospectionResponse → List String
accessible u = elim u.namespaces [
  | none ↦ "" ∷ []
  | some n ↦ elim n.user_allowed [ none ↦ "" ∷ [] | some nss ↦ nss ]
]

unfoldable pub creatable : UserIntrospectionResponse → List String
creatable u = elim u.namespaces [
  | none ↦ []
  | some n ↦ elim n.user_creatable [ none ↦ [] | some nss ↦ sort nss ]
]

abbrev pub is_valid : Bool → List String → String → Bool
is_valid all nss namespace = if namespace == "All" then all else includes nss namespace

-- The namespace to go to: "All", or a creatable one, or the first accessible one, or none.
unfoldable pub fallback : Bool → List String → List String → String
fallback true nss created = "All"
fallback false [] created = ""
fallback false (ns ∷ nss) created = or_text (find (includes (ns ∷ nss)) created) ns

unfoldable pub settle : Bool → List String → List String → String → String
settle all nss created namespace =
    let next = fallback all nss created in
    let moved = if not (next == namespace) then next else namespace in
    if not (is_valid all nss namespace) then moved else namespace

-- The effect that validates the namespace; it waits for the user's data.
unfoldable pub validate : Option UserIntrospectionResponse → String → String
validate none namespace = namespace
validate (some u) namespace = settle (allow_all u) (accessible u) (creatable u) namespace

abbrev pub namespace_key : String
namespace_key = "co_ns"

-- The first namespace, from localStorage.
unfoldable pub initial_namespace : List (String × String) → String
initial_namespace storage = or_text (lookup namespace_key storage) "default"

-- The effect that stores the namespace.
unfoldable pub persist :
    Option UserIntrospectionResponse → String → List (String × String) → List (String × String)
persist none namespace storage = storage
persist (some u) namespace storage = insert namespace_key namespace storage

-- RequireAuth
pub data Gate : Type 0 where
  waiting : Gate
  -- with the location to come back to
  to_login : String → Gate
  content : Gate

unfoldable pub require_auth : Bool → Bool → String → Gate
require_auth is_authenticated is_loading location =
    if is_loading then waiting else if not is_authenticated then to_login location else content

-- `from?.pathname || "/sessions"`, where the login route goes on to
unfoldable pub after_login : Option String → String
after_login from = or_text from "/sessions"

-- /^\/sessions(\/|$)/ and /^\/workloads(\/|$)/
abbrev is_below : String → String → Bool
is_below root path = path == root || has_prefix path (root ++ "/")

unfoldable pub show_namespace_select : String → Bool
show_namespace_select path = is_below "/sessions" path || is_below "/workloads" path

-- `handleRefresh` refreshes the sessions page on its own paths.
unfoldable pub does_refresh : String → Bool
does_refresh path = has_prefix path "/sessions"

abbrev toast : String → String → Alert
toast key message = record { key = key; title = message; variant = danger }

-- A message that is there and not empty.
abbrev toast_error : ℕ → Bool → String → Option String → List Alert → List Alert
toast_error max enabled key none alerts = alerts
toast_error max enabled key (some message) alerts =
    if not (message == "") && enabled then push max (toast key message) alerts else alerts

abbrev without_permission_error : Option String → Option String
without_permission_error none = none
without_permission_error (some m) =
    if includes_text m "Insufficient permissions" then none else some m

-- The effect that shows failed introspection, with the keys of the alerts.
unfoldable pub toast_errors :
    ℕ → Bool → String → String → Option String → Option String → List Alert → List Alert
toast_errors max enabled key key' user_error server_error alerts =
    toast_error max enabled key' (without_permission_error server_error)
      (toast_error max enabled key user_error alerts)
