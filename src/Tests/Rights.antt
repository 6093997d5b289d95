-- ===== src/Tests/Rights.antt =====
-- Rights: `can`, `namespacesWhere`, the header's namespaces, and the namespace of the app.
use codespace_operator.Prelude.{
  String, ◌≡◌, ◌≢◌, ◌↔◌, ◌⊎◌, inl, inr, refl, true, false, none, some, [], ◌∷◌, arith, eq_iff, In,
  lookup, includes, find, filter, names_where,
}
use codespace_operator.Js.Result.{ok}
use codespace_operator.Js.Sort.{sort}
use codespace_operator.Types.Introspection.{list, delete, action_name, Introspection}
use codespace_operator.Cap.{flag, can, namespaces_where}
use codespace_operator.Cap.Laws.{Grants, scope, can_iff}
use codespace_operator.Namespaces.{
  merge, merge_lists, merge_cluster, merge_limited, distinct, distinct_from, user_allowed,
  can_perform_action,
}
use codespace_operator.Namespaces.Laws.{merge_confined}
use codespace_operator.Namespaces.Permissions.{can_perform_action_lem}
use codespace_operator.App.{allow_all, accessible, creatable, fallback, settle, validate}
use codespace_operator.App.Namespace.{validate_settles, validate-IsOpen, IsOpen}
use codespace_operator.Tests.Samples.{
  some_domains, sample_ix, limited_user, wide_user, sample_server,
}

can_tests :
    (can (some sample_ix) "dev" delete ≡ false)
    × (can (some sample_ix) "ops" delete ≡ true)
    × (can (some sample_ix) "All" delete ≡ true)
    × (can (some sample_ix) "dev" list ≡ true)
    × (can none "dev" list ≡ false)
    × (namespaces_where (some sample_ix) list ≡ ok ("dev" ∷ []))
unfolding can flag lookup action_name namespaces_where names_where sort filter
can_tests = (refl, refl, refl, refl, refl, refl)

can_iff_example :
    (can (some sample_ix) "ops" delete ≡ true)
    ↔ ((x : Introspection) × (some sample_ix ≡ some x) × Grants x delete (scope "ops"))
can_iff_example = can_iff (some sample_ix) "ops" delete

merge_tests :
    ((merge (some limited_user) (some sample_server)).all_namespaces ≡ "dev" ∷ "ops" ∷ [])
    × ((merge (some limited_user) (some sample_server)).session_namespaces ≡ "ops" ∷ [])
    × ((merge (some wide_user) (some sample_server)).all_namespaces ≡ "dev" ∷ "kube" ∷ "ops" ∷ [])
    × ((merge (some wide_user) (some sample_server)).session_namespaces ≡ "kube" ∷ "ops" ∷ [])
    × ((merge none none).all_namespaces ≡ "default" ∷ [])
unfolding merge merge_lists merge_cluster merge_limited distinct distinct_from includes sort filter
merge_tests = (refl, refl, refl, refl, refl)

merge_confined_example :
    In "ops" (user_allowed (some limited_user)) ⊎ ◌≡◌ {A = String} "ops" "default"
unfolding merge merge_lists merge_limited sort filter includes
merge_confined_example =
    merge_confined (some limited_user) (some sample_server) "ops" refl (inr (inl refl))

dev-ne-All : ◌≢◌ {A = String} "dev" "All"
dev-ne-All = ground (arith, eq_iff "dev" "All")

dev-ne-star : ◌≢◌ {A = String} "dev" "*"
dev-ne-star = ground (arith, eq_iff "dev" "*")

can_perform_action_example :
    (¬ (
      (can (some sample_ix) "dev" delete ≡ true)
      × (can_perform_action (some limited_user) delete "dev" ≡ false)))
    × ((can (some sample_ix) "dev" delete ≢ can_perform_action (some limited_user) delete "dev") ↔ (
        (flag (some some_domains) "dev" delete ≡ some false)
        × (flag (some some_domains) "*" delete ≡ some true)))
can_perform_action_example =
    can_perform_action_lem limited_user sample_ix delete "dev" refl dev-ne-All dev-ne-star

validate_tests :
    (validate (some limited_user) "kube" ≡ "dev")
    × (validate (some limited_user) "ops" ≡ "ops")
    × (validate (some limited_user) "All" ≡ "dev")
    × (validate none "kube" ≡ "kube")
unfolding validate settle fallback allow_all accessible creatable sort find includes flag lookup
    action_name
validate_tests = (refl, refl, refl, refl)

-- "ops" is open to the user, and is not the one that an invalid namespace is replaced by.
ops-IsOpen : IsOpen (allow_all limited_user) (accessible limited_user) "ops"
unfolding allow_all accessible sort flag lookup action_name
ops-IsOpen = inl (ground (arith, eq_iff "ops" "All"), inl refl)

validate_settles_example :
    (validate (some limited_user) "ops" ≡ "ops")
    × (validate (some limited_user) (validate (some limited_user) "kube")
        ≡ validate (some limited_user) "kube")
validate_settles_example = validate_settles limited_user "ops" "kube" ops-IsOpen

not-All_accessible : ¬ In "All" (accessible limited_user)
unfolding accessible
not-All_accessible i = elim i [
  | inl e ↦ ground (arith, e, eq_iff "All" "ops")
  | inr j ↦ elim j [ inl e ↦ ground (arith, e, eq_iff "All" "dev") | inr k ↦ k ]
]

accessible-ne-nil : accessible limited_user ≢ []
unfolding accessible
accessible-ne-nil e = cc e

validate-IsOpen_example :
    IsOpen (allow_all limited_user) (accessible limited_user) (validate (some limited_user) "kube")
validate-IsOpen_example = validate-IsOpen limited_user "kube" accessible-ne-nil not-All_accessible
