-- ===== src/Cap/Listing.antt =====
-- What `namespacesWhere` lists.
use codespace_operator.Prelude.{
  String, ◌≡◌, ◌≢◌, ◌↔◌, true, some, List, arith, eq_iff, In, lookup, HasDistinctKeys, names_where,
  In-names_where, Passes, Option-cases, inl, inr,
}
use codespace_operator.Js.Result.{ok}
use codespace_operator.Js.Sort.{sort, IsSorted, sort-IsSorted, In-sort}
use codespace_operator.Types.Introspection.{Action, Domains, Introspection}
use codespace_operator.Cap.{session_flag, flag, can, is_listed, namespaces_where}

-- The namespace's own flag is set, and it is not the wildcard.
abbrev pub IsAllowed : Domains → Action → String → Type 0
IsAllowed ds action ns = (ns ≢ "*") × (flag (some ds) ns action ≡ some true)

pub Passes-iff :
    (ds : Domains) (action : Action) (ns : String)
    → Passes (is_listed action) ns ds ↔ IsAllowed ds action ns
unfolding flag session_flag
Passes-iff ds action ns = (
  λ h. ground (arith, h.1, h.2, eq_iff ns "*"),
  λ h. elim (Option-cases (lookup ns ds)) [
    | inl missing ↦ absurd (ground (arith, h.1))
    | inr (v, found) ↦ (v, found, ground (arith, h.0, h.1, eq_iff ns "*"))
  ],
)

-- Where the answer holds domains, and each once, the result is sorted and lists exactly the
-- namespaces other than "*" whose own flag for the action is set.
pub namespaces_where_lem :
    (ix : Introspection) (ds : Domains) (action : Action)
    → ix.domains ≡ some ds
    → HasDistinctKeys ds
    → (nss : List String) × (namespaces_where (some ix) action ≡ ok nss)
      × IsSorted nss
      × ((ns : String) → In ns nss ↔ IsAllowed ds action ns)
unfolding namespaces_where
namespaces_where_lem ix ds action e d =
    let found = names_where (is_listed action) ds in
    (
      sort found,
      rw e,
      sort-IsSorted found,
      λ ns. (
        λ i.
            (Passes-iff ds action ns).0
              ((In-names_where (is_listed action) ns ds d).0 ((In-sort ns found).0 i)),
        λ h.
            (In-sort ns found).1
              ((In-names_where (is_listed action) ns ds d).1 ((Passes-iff ds action ns).1 h)),
      ),
    )

-- Every listed namespace that is not spelled "All" is one where `can` grants the action.
pub can_of_listed :
    (ix : Introspection) (ds : Domains) (action : Action) (ns : String)
    → ix.domains ≡ some ds
    → IsAllowed ds action ns
    → ns ≢ "All"
    → can (some ix) ns action ≡ true
unfolding can
can_of_listed ix ds action ns e h n = ground (arith, e, h.1, eq_iff ns "All")
