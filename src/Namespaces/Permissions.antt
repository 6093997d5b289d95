-- ===== src/Namespaces/Permissions.antt =====
-- `canPerformAction` of useNamespaces.ts against `can` of cap.ts.
use codespace_operator.Prelude.{String, ◌≡◌, ◌≢◌, ◌↔◌, true, false, some, arith, eq_iff}
use codespace_operator.Types.Introspection.{Action, UserIntrospectionResponse, Introspection}
use codespace_operator.Cap.{flag, can}
use codespace_operator.Namespaces.{can_perform_action}

-- Over the same domains and in a namespace other than "All" and "*", the header's test never refuses
-- what `can` grants, and the two differ exactly where the namespace's flag is false and the wildcard's
-- is true: there the header's test grants the action and `can` does not.
pub can_perform_action_lem :
    (u : UserIntrospectionResponse) (ix : Introspection) (action : Action) (ns : String)
    → u.domains ≡ ix.domains
    → ns ≢ "All"
    → ns ≢ "*"
    → (¬ ((can (some ix) ns action ≡ true) × (can_perform_action (some u) action ns ≡ false)))
      × ((can (some ix) ns action ≢ can_perform_action (some u) action ns)
          ↔ ((flag ix.domains ns action ≡ some false) × (flag ix.domains "*" action ≡ some true)))
unfolding can can_perform_action
can_perform_action_lem u ix action ns e n m =
    ground (arith, e, n, m, eq_iff ns "All", eq_iff ns "*")
