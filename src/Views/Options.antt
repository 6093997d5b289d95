-- ===== src/Views/Options.antt =====
-- ui/src/components/Header.tsx: the choice of the namespace.
pub mod Laws
use codespace_operator.Prelude.{
  String, Bool, true, false, not, ◌&&◌, Option, List, [], ◌∷◌, map, ◌==◌, if◌then◌else◌, includes,
  filter,
}
use codespace_operator.Types.Introspection.{
  UserIntrospectionResponse, ServerIntrospectionResponse, watch,
}
use codespace_operator.Namespaces.{can_perform_action, merge}

-- `emptySet`: the namespaces without sessions
unfoldable pub empty_set : List String → List String → List String
empty_set all_namespaces session_namespaces =
    filter (λ ns. not (includes session_namespaces ns)) all_namespaces

unfoldable pub select_options : Bool → List String → List String
select_options allow_all all_namespaces =
    if allow_all then "All" ∷ all_namespaces else all_namespaces

pub record Choice : Type 0 where
  pub value : String
  pub label : String
  pub is_disabled : Bool

unfoldable pub choice_of : List String → String → String → Choice
choice_of empty namespace ns =
    let is_all = ns == "All" in
    let is_empty = not is_all && includes empty ns in
    record {
      value = ns;
      label = if is_all then "All Namespaces" else ns;
      is_disabled = not is_all && not (ns == namespace) && is_empty;
    }

-- The choices of the header, from the answers of the two introspection hooks.
unfoldable pub choices :
    Option UserIntrospectionResponse → Option ServerIntrospectionResponse → String → List Choice
choices user server namespace =
    let merged = merge user server in
    let empty = empty_set merged.all_namespaces merged.session_namespaces in
    map (choice_of empty namespace)
      (select_options (can_perform_action user watch "*") merged.all_namespaces)
