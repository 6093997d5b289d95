-- ===== src/Cap.antt =====
-- ui/src/lib/cap.ts: what the introspection answer lets the user do.
pub mod Laws
pub mod Listing
use codespace_operator.Prelude.{
  String, Bool, true, false, not, ◌&&◌, Option, none, some, List, [], ◌==◌, if◌then◌else◌, lookup,
  names_where,
}
use codespace_operator.Js.Result.{Result, ok, err}
use codespace_operator.Js.Sort.{sort}
use codespace_operator.Types.Introspection.{
  Action, action_name, DomainPermissions, Domains, Introspection,
}

-- `v?.session?.[action]`
unfoldable pub session_flag : DomainPermissions → Action → Option Bool
session_flag v action = elim v.session [ none ↦ none | some s ↦ lookup (action_name action) s ]

-- `domains?.[key]?.session?.[action]`
unfoldable pub flag : Option Domains → String → Action → Option Bool
unfolding session_flag
flag none key action = none
flag (some ds) key action = elim (lookup key ds) [ none ↦ none | some v ↦ session_flag v action ]

-- `!!x` of an optional Boolean
abbrev pub is_true : Option Bool → Bool
is_true none = false
is_true (some b) = b

unfoldable pub can : Option Introspection → String → Action → Bool
unfolding flag
can none ns action = false
can (some ix) ns action =
    let key = if ns == "All" then "*" else ns in
    let wildcard = if not (key == "*") then is_true (flag ix.domains "*" action) else false in
    elim (flag ix.domains key action) [ some direct ↦ direct | none ↦ wildcard ]

-- the filter of `namespacesWhere`
abbrev pub is_listed : Action → String × DomainPermissions → Bool
is_listed action (ns, v) = not (ns == "*") && is_true (session_flag v action)

abbrev pub entries_error : String
entries_error = "Cannot convert undefined or null to object"

-- Object.entries throws where `domains` is missing.
unfoldable pub namespaces_where : Option Introspection → Action → Result (List String)
unfolding session_flag
namespaces_where none action = ok []
namespaces_where (some ix) action = elim ix.domains [
  | none ↦ err entries_error
  | some ds ↦ ok (sort (names_where (is_listed action) ds))
]
