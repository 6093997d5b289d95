-- ===== src/Sessions/Effective.antt =====
-- ui/src/hooks/useSessions.ts, the namespace that stands in for "All", against ui/src/lib/cap.ts.
use codespace_operator.Prelude.{
  String, ◌≡◌, ◌≢◌, ◌⊎◌, refl, ap, Bool, true, false, none, some, List, [], ◌∷◌, arith, eq_iff,
  find, find-some, In, lookup, HasDistinctKeys, Bool-cases, text_cases, Option-cases, inl, inr,
}
use codespace_operator.Js.Result.{ok}
use codespace_operator.Types.Introspection.{Introspection, DomainPermissions, Domains, list, watch}
use codespace_operator.Cap.{can, is_listed, namespaces_where}
use codespace_operator.Cap.Listing.{Passes-iff, namespaces_where_lem, can_of_listed}
use codespace_operator.Sessions.{effective_ns, may_list}

module _ {V : Type 0} where
  find-lookup :
      (p : String × V → Bool) (m : List (String × V)) (k : String) (v : V)
      → HasDistinctKeys m
      → find p m ≡ some (k, v)
      → lookup k m ≡ some v
  unfolding find lookup
  find-lookup p [] k v d h = cc h
  find-lookup p ((j, u) ∷ m) k v d h = elim (Bool-cases (p (j, u))) [
    | inl e ↦
        let here : String × V = (j, u) in
        let there : String × V = (k, v) in
        let same : some here ≡ some there = ground arith in
        let pair : here ≡ there = cc in
        let name : j ≡ k = ap (λ (x : String × V). x.0) pair in
        let value : u ≡ v = ap (λ (x : String × V). x.1) pair in
        ground (arith, name, value, eq_iff j k)
    | inr e ↦
        let later : find p m ≡ some (k, v) = ground arith in
        let there = find-lookup p m k v d.1 later in ground (arith, there, d.0, eq_iff j k)
  ]

  find-none-lookup :
      (p : String × V → Bool) (m : List (String × V)) (k : String) (v : V)
      → find p m ≡ none
      → lookup k m ≡ some v
      → p (k, v) ≡ false
  unfolding find lookup
  find-none-lookup p [] k v h found = cc found
  find-none-lookup p ((j, u) ∷ m) k v h found = elim (Bool-cases (p (j, u))) [
    | inl e ↦ absurd (ground arith)
    | inr e ↦ elim (text_cases j k) [
      | inl name ↦ let value : u ≡ v = ground (arith, eq_iff j k, name) in rw⁻¹ (name, value) e
      | inr other ↦ find-none-lookup p m k v (ground arith) (ground (arith, eq_iff j k, other))
    ]
  ]

-- In a text that is not empty, `||` changes nothing.
effective_of_found :
    (ix : Introspection) (ds : Domains) (ns : String) (v : DomainPermissions)
    → ix.domains ≡ some ds
    → can (some ix) "*" watch ≡ false
    → find may_list ds ≡ some (ns, v)
    → ns ≢ ""
    → effective_ns (some ix) "All" ≡ ns
unfolding effective_ns
effective_of_found ix ds ns v here no_watch found named =
    rw (no_watch, here, found) (ground (arith, eq_iff ns ""))

effective_of_none :
    (ix : Introspection) (ds : Domains)
    → ix.domains ≡ some ds
    → can (some ix) "*" watch ≡ false
    → find may_list ds ≡ none
    → effective_ns (some ix) "All" ≡ "default"
unfolding effective_ns
effective_of_none ix ds here no_watch missing = rw (no_watch, here, missing) refl

-- For a user who may not watch the whole cluster, where no domain is named "" or "All", "All" stands
-- for a namespace that `namespacesWhere` gives for the listing and where `can` grants it, or else
-- for "default", and then there is no such namespace at all.
pub effective_can_list :
    (ix : Introspection) (ds : Domains)
    → ix.domains ≡ some ds
    → HasDistinctKeys ds
    → lookup "" ds ≡ none
    → lookup "All" ds ≡ none
    → can (some ix) "*" watch ≡ false
    → (nss : List String) × (namespaces_where (some ix) list ≡ ok nss)
      × ((In (effective_ns (some ix) "All") nss
            × (can (some ix) (effective_ns (some ix) "All") list ≡ true))
          ⊎ ((effective_ns (some ix) "All" ≡ "default") × ((ns : String) → ¬ In ns nss)))
unfolding may_list
effective_can_list ix ds here distinct no_empty no_all no_watch =
    let (nss, listed, sorted, iff) = namespaces_where_lem ix ds list here distinct in
    (
      nss,
      listed,
      elim (Option-cases (find may_list ds)) [
        | inl missing ↦ inr (
          effective_of_none ix ds here no_watch missing,
          λ ns i.
              let (v, found, passes) = (Passes-iff ds list ns).1 ((iff ns).0 i) in
              let never : is_listed list (ns, v) ≡ false =
                find-none-lookup may_list ds ns v missing found in
              absurd (cc (never, passes)),
        )
        | inr ((ns, v), found) ↦
            let at = find-lookup may_list ds ns v distinct found in
            let passes = (find-some may_list ds (ns, v) found).1 in
            let allowed = (Passes-iff ds list ns).0 (v, at, passes) in
            let effective =
              effective_of_found ix ds ns v here no_watch found
                (λ e. cc (at, no_empty, ap (λ k. lookup k ds) e)) in
            inl (
              rw effective (
                (iff ns).1 allowed,
                can_of_listed ix ds list ns here allowed
                    (λ e. cc (at, no_all, ap (λ k. lookup k ds) e)),
              ))
      ],
    )
