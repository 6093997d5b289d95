-- ===== src/Sessions/Replay.antt =====
-- The stream as a whole: what the table shows after any sequence of events, and the table as a map
-- from names to sessions that forgets the order of the rows, where no two have one name.
use mathlib.Core.Quot
use mathlib.Core.Quot.{Quot, Quot-set}
use codespace_operator.Prelude.{
  ℕ, String, ◌≡◌, ◌≢◌, refl, sym, ◌∙◌, find-some, In, false, Option, none, some, List, [], ◌∷◌, map,
  arith, ◌==◌, eq_iff, if◌then◌else◌, Option-cases, inl, inr,
}
use codespace_operator.Types.Session.{UiSession, SessionEvent}
use codespace_operator.Sessions.{apply_event, has_name}
use codespace_operator.Sessions.Rows.{
  row, row-apply_event, row_of_In, HasUniqueNames, apply_event-HasUniqueNames,
}
use codespace_operator.Sessions.Loading.{State, resolved, streamed, step, run}

unfoldable pub replay_events : List SessionEvent → List UiSession → List UiSession
replay_events [] rows = rows
replay_events (ev ∷ es) rows = replay_events es (apply_event ev rows)

-- The last event that is about a name.
unfoldable pub latest : String → List SessionEvent → Option SessionEvent
latest name [] = none
latest name (ev ∷ es) = elim (latest name es) [
  | some later ↦ some later
  | none ↦ if ev.object.metadata.name == name then some ev else none
]

-- What an event leaves under its name, and what is there without one.
abbrev pub shown_by : Option SessionEvent → Option UiSession → Option UiSession
shown_by none before = before
shown_by (some ev) before = if ev.type == "DELETED" then none else some ev.object

-- After any events a name shows what the last event about it says: nothing if that deletes, its session
-- if not. A name that no event is about shows what it showed at first.
pub replay_latest :
    (es : List SessionEvent) (rows : List UiSession) (name : String)
    → row (replay_events es rows) name ≡ shown_by (latest name es) (row rows name)
unfolding replay_events latest
replay_latest [] rows name = refl
replay_latest (ev ∷ es) rows name = elim (Option-cases (latest name es)) [
  | inl e ↦
      rw (replay_latest es (apply_event ev rows) name, e)
        (row-apply_event ev rows name ∙ ground arith)
  | inr (later, e) ↦ rw (replay_latest es (apply_event ev rows) name, e) refl
]

-- Two tables that show the same under every name.
abbrev pub SameRows : List UiSession → List UiSession → Type 0
SameRows xs ys = (name : String) → row xs name ≡ row ys name

-- Rows of which no two have one name.
abbrev pub UniqueRows : Type 0
UniqueRows = (rows : List UiSession) × HasUniqueNames rows

-- Rows without a doubled name that show the same under every name are the same rows in another order.
SameRows-In : (xs ys : UniqueRows) (x : UiSession) → SameRows xs.0 ys.0 → In x xs.0 → In x ys.0
SameRows-In xs ys x same i =
    let (member, _) =
      find-some (has_name x.metadata.name) ys.0 x
        (sym (same x.metadata.name) ∙ row_of_In x xs.0 xs.1 i) in
    member

abbrev pub Table : Type 0
Table = Quot {α = UniqueRows} (λ xs ys. SameRows xs.0 ys.0)

apply_event-SameRows :
    (ev : SessionEvent) (xs ys : List UiSession)
    → SameRows xs ys
    → SameRows (apply_event ev xs) (apply_event ev ys)
apply_event-SameRows ev xs ys h name =
    rw (row-apply_event ev xs name, row-apply_event ev ys name, h name) refl

-- An event on a table, which is well defined whatever the order of the rows.
pub table_event : SessionEvent → Table → Table
table_event ev =
    Quot.lift Quot-set
      (λ xs. Quot.mk (apply_event ev xs.0, apply_event-HasUniqueNames ev xs.0 xs.1))
      (λ xs ys h. Quot.sound (apply_event-SameRows ev xs.0 ys.0 h))

swapped :
    (ev ev' : SessionEvent) (rows : List UiSession) (name : String)
    → ev.object.metadata.name ≢ ev'.object.metadata.name
    → row (apply_event ev (apply_event ev' rows)) name
      ≡ row (apply_event ev' (apply_event ev rows)) name
swapped ev ev' rows name apart = ground (
  arith,
  row-apply_event ev (apply_event ev' rows) name,
  row-apply_event ev' rows name,
  row-apply_event ev' (apply_event ev rows) name,
  row-apply_event ev rows name,
  eq_iff ev.object.metadata.name name,
  eq_iff ev'.object.metadata.name name,
)

-- Where no two rows have one name, events about different names may come in either order: the table is
-- the same, although the rows may stand in another order.
pub table_event_comm :
    (ev ev' : SessionEvent) (t : Table)
    → ev.object.metadata.name ≢ ev'.object.metadata.name
    → table_event ev (table_event ev' t) ≡ table_event ev' (table_event ev t)
unfolding table_event
table_event_comm ev ev' t apart =
    Quot.ind
      (λ u. Quot-set (table_event ev (table_event ev' u)) (table_event ev' (table_event ev u)))
      (λ rows. Quot.sound (λ name. swapped ev ev' rows.0 name apart)) t

pub run-streamed :
    (es : List SessionEvent) (s : State)
    → run (map streamed es) s ≡ record s { rows = replay_events es s.rows }
unfolding run step replay_events
run-streamed [] s = refl
run-streamed (ev ∷ es) s = run-streamed es (step (streamed ev) s)

-- The answer that is awaited ends the loading, and from then on the table shows that answer with the
-- events of the stream applied in their order; it stands for the namespace that is shown.
pub answer_then_stream :
    (s : State) (id : ℕ) (found : List UiSession) (es : List SessionEvent)
    → s.current ≡ some id
    → let t = run (map streamed es) (step (resolved id found) s) in
      (t.rows ≡ replay_events es found)
      × (t.loading ≡ false)
      × (t.current ≡ none)
      × (t.source ≡ some s.effective)
      × (t.errors ≡ s.errors)
answer_then_stream s id found es awaited =
    rw (run-streamed es (step (resolved id found) s)) (unfold step in ground (arith, awaited))
