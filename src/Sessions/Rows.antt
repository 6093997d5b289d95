-- ===== src/Sessions/Rows.antt =====
-- The rows after an event, as a map from names to sessions.
use codespace_operator.Prelude.{
  ℕ, zero, suc, String, ◌≡◌, ◌≢◌, refl, sym, ap, ◌∙◌, Bool, not, Option, none, some, List, [], ◌∷◌,
  map, arith, ◌==◌, ◌&&◌, eq_iff, if◌then◌else◌, find, find-some, filter, In, Bool-cases, inl, inr,
  lookup, lookup-without, Option-cases,
}
use codespace_operator.Prelude.Int.{ℤ}
use codespace_operator.Types.Session.{UiSession, SessionEvent}
use codespace_operator.Sessions.{has_name, find_index, set, apply_event, clear_target, event_key}

-- What the table shows under a name.
abbrev pub row : List UiSession → String → Option UiSession
row rows name = find (has_name name) rows

row-filter :
    (gone name : String) (rows : List UiSession)
    → row (filter (λ x. not (has_name gone x)) rows) name
      ≡ (if gone == name then none else row rows name)
unfolding find filter
row-filter gone name [] = ground arith
row-filter gone name (x ∷ xs) = ground (
  arith,
  row-filter gone name xs,
  eq_iff gone name,
  eq_iff x.metadata.name gone,
  eq_iff x.metadata.name name,
)

row-set :
    (o : UiSession) (name : String) (rows : List UiSession) (i : ℕ)
    → find_index (has_name o.metadata.name) rows ≡ some i
    → row (set rows i o) name ≡ (if o.metadata.name == name then some o else row rows name)
unfolding find find_index set
row-set o name [] i h = cc
row-set o name (x ∷ xs) zero h = ground (
  arith,
  eq_iff x.metadata.name o.metadata.name,
  eq_iff o.metadata.name name,
  eq_iff x.metadata.name name,
)
row-set o name (x ∷ xs) (suc i) h = ground (
  arith,
  row-set o name xs i,
  eq_iff x.metadata.name o.metadata.name,
  eq_iff o.metadata.name name,
  eq_iff x.metadata.name name,
)

-- After an event the name of its session is absent if the event deletes, and shows the session of the
-- event if not; every other name shows what it showed.
pub row-apply_event :
    (ev : SessionEvent) (rows : List UiSession) (name : String)
    → row (apply_event ev rows) name ≡ (
        if ev.object.metadata.name == name
        then (if ev.type == "DELETED" then none else some ev.object)
        else row rows name)
unfolding apply_event
row-apply_event ev rows name = elim (Bool-cases (ev.type == "DELETED")) [
  | inl e ↦ rw e (row-filter ev.object.metadata.name name rows)
  | inr e ↦ elim (Option-cases (find_index (has_name ev.object.metadata.name) rows)) [
    | inl missing ↦ rw (e, missing) (unfold find in refl)
    | inr (i, found) ↦ rw (e, found) (row-set ev.object name rows i found)
  ]
]

abbrev pub names : List UiSession → List String
names rows = map (λ x. x.metadata.name) rows

-- No two rows have one name.
abbrev pub HasUniqueNames : List UiSession → Type 0
HasUniqueNames [] = Unit
HasUniqueNames (x ∷ xs) = (¬ In x.metadata.name (names xs)) × HasUniqueNames xs

In-names-filter :
    (p : UiSession → Bool) (n : String) (rows : List UiSession)
    → In n (names (filter p rows))
    → In n (names rows)
unfolding filter
In-names-filter p n [] h = h
In-names-filter p n (x ∷ xs) h = grind (arith, In-names-filter p n xs)

filter-HasUniqueNames :
    (p : UiSession → Bool) (rows : List UiSession)
    → HasUniqueNames rows
    → HasUniqueNames (filter p rows)
unfolding filter
filter-HasUniqueNames p [] h = tt
filter-HasUniqueNames p (x ∷ xs) h = elim (Bool-cases (p x)) [
  | inl e ↦ rw e ((λ i. h.0 (In-names-filter p _ xs i)), filter-HasUniqueNames p xs h.1)
  | inr e ↦ rw e (filter-HasUniqueNames p xs h.1)
]

names-set :
    (o : UiSession) (rows : List UiSession) (i : ℕ)
    → find_index (has_name o.metadata.name) rows ≡ some i
    → names (set rows i o) ≡ names rows
unfolding find_index set
names-set o [] i h = cc
names-set o (x ∷ xs) zero h = ground (arith, eq_iff x.metadata.name o.metadata.name)
names-set o (x ∷ xs) (suc i) h =
    ground (arith, names-set o xs i, eq_iff x.metadata.name o.metadata.name)

HasUniqueNames-of_names :
    (xs ys : List UiSession) → names xs ≡ names ys → HasUniqueNames ys → HasUniqueNames xs
HasUniqueNames-of_names [] ys e h = tt
HasUniqueNames-of_names (x ∷ xs) [] e h = absurd (cc e)
HasUniqueNames-of_names (x ∷ xs) (y ∷ ys) e h =
    let same : x.metadata.name ≡ y.metadata.name = cc in
    let rest : names xs ≡ names ys = cc in
    (rw (same, rest) h.0, HasUniqueNames-of_names xs ys rest h.1)

not-In_of_missing :
    (n : String) (rows : List UiSession) → find_index (has_name n) rows ≡ none → ¬ In n (names rows)
unfolding find_index
not-In_of_missing n [] h i = i
not-In_of_missing n (x ∷ xs) h i = grind (arith, not-In_of_missing n xs, eq_iff x.metadata.name n)

-- An event keeps the names of the rows distinct.
pub apply_event-HasUniqueNames :
    (ev : SessionEvent) (rows : List UiSession)
    → HasUniqueNames rows
    → HasUniqueNames (apply_event ev rows)
unfolding apply_event
apply_event-HasUniqueNames ev rows h = elim (Bool-cases (ev.type == "DELETED")) [
  | inl e ↦ rw e (filter-HasUniqueNames _ rows h)
  | inr e ↦ elim (Option-cases (find_index (has_name ev.object.metadata.name) rows)) [
    | inl missing ↦ rw (e, missing) (not-In_of_missing _ rows missing, h)
    | inr (i, found) ↦
        rw (e, found) (HasUniqueNames-of_names _ rows (names-set ev.object rows i found) h)
  ]
]

-- After an event no target waits for its session, and every other target is kept.
pub lookup-clear_target :
    (ev : SessionEvent) (p : List (String × ℤ)) (key : String)
    → lookup key (clear_target ev p) ≡ (if event_key ev == key then none else lookup key p)
unfolding clear_target
lookup-clear_target ev p key =
    ground (arith, lookup-without (event_key ev) key p, eq_iff (event_key ev) key)

In-names : (x : UiSession) (rows : List UiSession) → In x rows → In x.metadata.name (names rows)
In-names x [] i = i
In-names x (y ∷ ys) (inl e) = inl (ap (λ (s : UiSession). s.metadata.name) e)
In-names x (y ∷ ys) (inr i) = inr (In-names x ys i)

pub row_of_In :
    (x : UiSession) (rows : List UiSession)
    → HasUniqueNames rows
    → In x rows
    → row rows x.metadata.name ≡ some x
unfolding find
row_of_In x [] u i = absurd i
row_of_In x (y ∷ ys) u (inl e) = ground (arith, e, eq_iff y.metadata.name x.metadata.name)
row_of_In x (y ∷ ys) u (inr i) =
    let apart : y.metadata.name ≢ x.metadata.name = λ e. u.0 (rw e (In-names x ys i)) in
    ground (arith, row_of_In x ys u.1 i, eq_iff y.metadata.name x.metadata.name)

-- How many rows are of one session.
unfoldable pub held : String → String → List UiSession → ℕ
held ns name [] = 0
held ns name (x ∷ xs) =
    let rest = held ns name xs in
    if x.metadata.namespace == ns && x.metadata.name == name then suc rest else rest

held-filter :
    (ns name : String) (rows : List UiSession)
    → held ns name (filter (λ x. not (has_name name x)) rows) ≡ 0
unfolding held filter
held-filter ns name [] = refl
held-filter ns name (x ∷ xs) = ground (arith, held-filter ns name xs)

held-set :
    (x o : UiSession) (rows : List UiSession) (i : ℕ)
    → find_index (has_name o.metadata.name) rows ≡ some i
    → row rows o.metadata.name ≡ some x
    → x.metadata.namespace ≢ o.metadata.namespace
    → suc (held x.metadata.namespace o.metadata.name (set rows i o))
      ≡ held x.metadata.namespace o.metadata.name rows
unfolding held find find_index set
held-set x o [] i h shown other = cc h
held-set x o (y ∷ ys) zero h shown other =
    let same : y.metadata.name ≡ o.metadata.name =
      ground (arith, h, eq_iff y.metadata.name o.metadata.name) in
    let whole : y ≡ x = ground (arith, shown, same, eq_iff y.metadata.name o.metadata.name) in
    ground (
      arith,
      same,
      ap (λ (s : UiSession). s.metadata.namespace) whole,
      eq_iff y.metadata.name o.metadata.name,
      eq_iff y.metadata.namespace x.metadata.namespace,
      eq_iff o.metadata.namespace x.metadata.namespace,
    )
held-set x o (y ∷ ys) (suc i) h shown other =
    ground (arith, held-set x o ys i, h, shown, other, eq_iff y.metadata.name o.metadata.name)

held-apply_event :
    (x : UiSession) (ev : SessionEvent) (rows : List UiSession)
    → row rows ev.object.metadata.name ≡ some x
    → x.metadata.namespace ≢ ev.object.metadata.namespace
    → suc (held x.metadata.namespace ev.object.metadata.name (apply_event ev rows))
      ≡ (if ev.type == "DELETED" then 1 else held x.metadata.namespace ev.object.metadata.name rows)
unfolding apply_event
held-apply_event x ev rows shown other = elim (Bool-cases (ev.type == "DELETED")) [
  | inl e ↦ rw e (ap suc (held-filter x.metadata.namespace ev.object.metadata.name rows))
  | inr e ↦ elim (Option-cases (find_index (has_name ev.object.metadata.name) rows)) [
    | inl missing ↦
        let (member, named) = find-some (has_name ev.object.metadata.name) rows x shown in
        let same = (eq_iff x.metadata.name ev.object.metadata.name).0 named in
        absurd (
          not-In_of_missing ev.object.metadata.name rows missing
            (rw (← same) (In-names x rows member)))
    | inr (i, found) ↦ rw (e, found) (held-set x ev.object rows i found shown other)
  ]
]

-- Where the table shows a session under its name, an event of a session of the same name in another
-- namespace takes that row away, although the session may still be there on the server, since events are
-- matched by the name alone. A deletion leaves no row of the session and none of the name; any other
-- event leaves one row less of the session, and shows its own session under the name.
pub other_namespace_lost :
    (x : UiSession) (ev : SessionEvent) (rows : List UiSession)
    → row rows x.metadata.name ≡ some x
    → x.metadata.name ≡ ev.object.metadata.name
    → x.metadata.namespace ≢ ev.object.metadata.namespace
    → let after = apply_event ev rows in
      let mine = held x.metadata.namespace x.metadata.name in
      (suc (mine after) ≡ (if ev.type == "DELETED" then 1 else mine rows))
      × (row after x.metadata.name ≡ (if ev.type == "DELETED" then none else some ev.object))
other_namespace_lost x ev rows shown same other = rw same (
  held-apply_event x ev rows (ap (row rows) (sym same) ∙ shown) other,
  row-apply_event ev rows ev.object.metadata.name
      ∙ rw ((eq_iff ev.object.metadata.name ev.object.metadata.name).1 refl) refl,
)
