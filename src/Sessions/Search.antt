-- ===== src/Sessions/Search.antt =====
-- ui/src/hooks/useSessions.ts: `useFilteredSessions`. `toLowerCase` is the engine's, by the tables of
-- Unicode, and so a parameter.
use codespace_operator.Prelude.{
  String, ◌≡◌, ◌↔◌, Bool, true, ◌||◌, Option, none, some, List, [], arith, ◌==◌, eq_iff,
  if◌then◌else◌, lookup, filter, In, In-filter, Bool-cases, inl, inr, ◌⊎◌,
}
use codespace_operator.Js.Text.{trim, includes_text}
use codespace_operator.Types.Session.{UiSession, Labels, Networking}
use codespace_operator.Sessions.{or_text}

abbrev pub host_of : Option Networking → String
host_of none = ""
host_of (some n) = or_text n.host ""

abbrev pub labels_of : Option Labels → Labels
labels_of none = []
labels_of (some l) = l

unfoldable pub managed_by : UiSession → String
managed_by s =
    let labels = labels_of s.metadata.labels in
    or_text (lookup "codespace.dev/manager-name" labels) (
      or_text (lookup "codespace.dev/manager" labels)
        (or_text (lookup "app.kubernetes.io/managed-by" labels) ""))

module _ (to_lower_case : String → String) where
  unfoldable pub matches : String → UiSession → Bool
  matches q s =
      includes_text (to_lower_case s.metadata.name) q
      || includes_text (to_lower_case s.spec.profile.image) q
      || includes_text (to_lower_case (host_of s.spec.networking)) q
      || includes_text (to_lower_case (managed_by s)) q

  unfoldable pub filtered_sessions : List UiSession → String → List UiSession
  filtered_sessions rows query =
      let q = to_lower_case (trim query) in if q == "" then rows else filter (matches q) rows

  -- The query stands in the name, the image, the host or the manager, in lower case.
  abbrev pub Finds : String → UiSession → Type 0
  Finds q s =
      (includes_text (to_lower_case s.metadata.name) q ≡ true)
      ⊎ ((includes_text (to_lower_case s.spec.profile.image) q ≡ true)
          ⊎ ((includes_text (to_lower_case (host_of s.spec.networking)) q ≡ true)
              ⊎ (includes_text (to_lower_case (managed_by s)) q ≡ true)))

  matches_iff : (q : String) (s : UiSession) → (matches q s ≡ true) ↔ Finds q s
  unfolding matches
  matches_iff q s = ground arith

  -- The table shows exactly the rows in which the trimmed query in lower case is found, and all rows
  -- where nothing is left of the query.
  pub In-filtered_sessions :
      (rows : List UiSession) (query : String) (s : UiSession)
      → In s (filtered_sessions rows query)
        ↔ (In s rows × ((to_lower_case (trim query) ≡ "") ⊎ Finds (to_lower_case (trim query)) s))
  unfolding filtered_sessions
  In-filtered_sessions rows query s = elim (Bool-cases (to_lower_case (trim query) == "")) [
    | inl e ↦ rw e (λ i. (i, inl ((eq_iff _ _).0 e)), λ h. h.0)
    | inr e ↦ rw e (
      λ i.
          let (m, hit) = (In-filter (matches (to_lower_case (trim query))) s rows).0 i in
          (m, inr ((matches_iff (to_lower_case (trim query)) s).0 hit)),
      λ h. elim h.1 [
        | inl blank ↦ absurd (ground (arith, blank, eq_iff (to_lower_case (trim query)) ""))
        | inr found ↦
            (In-filter (matches (to_lower_case (trim query))) s rows).1
              (h.0, (matches_iff (to_lower_case (trim query)) s).1 found)
      ],
    )
  ]
