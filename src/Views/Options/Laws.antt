-- ===== src/Views/Options/Laws.antt =====
-- Which namespaces the header offers.
use codespace_operator.Prelude.{
  String, Bool, true, false, not, Option, some, List, ◌≡◌, ◌≢◌, ◌↔◌, ◌⊎◌, arith, eq_iff, In,
  In-filter, includes, includes_iff,
}
use codespace_operator.Types.Introspection.{
  UserIntrospectionResponse, ServerIntrospectionResponse, watch,
}
use codespace_operator.App.{allow_all}
use codespace_operator.Namespaces.{can_perform_action, merge, user_allowed, has_cluster_scope}
use codespace_operator.Namespaces.Laws.{merge_confined}
use codespace_operator.Views.Options.{empty_set, select_options, choice_of}

-- An offered namespace is disabled exactly if it is neither "All" nor the current one and has no
-- sessions.
choice_disabled_iff :
    (all_namespaces session_namespaces : List String) (is_offered : Bool) (namespace ns : String)
    → In ns (select_options is_offered all_namespaces)
    → ((choice_of (empty_set all_namespaces session_namespaces) namespace ns).is_disabled ≡ true)
      ↔ ((ns ≢ "All") × ((ns ≢ namespace) × (includes session_namespaces ns ≡ false)))
unfolding choice_of select_options empty_set
choice_disabled_iff all_namespaces session_namespaces is_offered namespace ns h =
    let p : String → Bool = λ x. not (includes session_namespaces x) in
    grind (
      arith,
      eq_iff ns "All",
      eq_iff ns namespace,
      includes_iff (empty_set all_namespaces session_namespaces) ns,
      In-filter p ns all_namespaces,
    )

wildcard_lem : (u : UserIntrospectionResponse) → can_perform_action (some u) watch "*" ≡ allow_all u
unfolding can_perform_action allow_all
wildcard_lem u = ground arith

-- A user without cluster scope is offered an allowed namespace, "default", or "All" where the app too
-- lets the user watch all namespaces, and nothing else.
options_confined :
    (u : UserIntrospectionResponse) (server : Option ServerIntrospectionResponse) (ns : String)
    → has_cluster_scope (some u) ≡ false
    → In ns (
        select_options
          (can_perform_action (some u) watch "*")
          (merge (some u) server).all_namespaces)
    → In ns (user_allowed (some u)) ⊎ ((ns ≡ "default") ⊎ ((ns ≡ "All") × (allow_all u ≡ true)))
unfolding select_options
options_confined u server ns limited offered =
    ground (arith, wildcard_lem u, merge_confined (some u) server ns limited)
