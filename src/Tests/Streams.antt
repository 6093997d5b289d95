-- ===== src/Tests/Streams.antt =====
-- Events of the stream, and the introspection of the page.
use mathlib.Core.Quot.{Quot}
use codespace_operator.Prelude.{
  List, ◌≡◌, ◌≢◌, refl, true, none, some, [], ◌∷◌, arith, eq_iff, find, filter,
}
use codespace_operator.Prelude.Int.{pos}
use codespace_operator.Js.Result.{ok}
use codespace_operator.Types.Session.{UiSession, SessionEvent}
use codespace_operator.Fetching.{resolved, rejected}
use codespace_operator.Sessions.{
  apply_event, find_index, set, create_guarded, remove_guarded, scale_guarded,
}
use codespace_operator.Sessions.Rows.{row}
use codespace_operator.Sessions.Loading as Loading
use codespace_operator.Sessions.Replay.{
  replay_events, latest, shown_by, replay_latest, Table, table_event, table_event_comm,
}
use codespace_operator.Context.{provided, page_load, is_answer}
use codespace_operator.Context.Laws.{failed_load_locks}
use codespace_operator.Tests.Samples.{session, event, sample_ix, sample_request}

abbrev web : UiSession
web = session "dev" "web" "code:1"

abbrev newer : UiSession
newer = session "dev" "web" "code:2"

abbrev db : UiSession
db = session "dev" "db" "pg:1"

-- "web" appears, changes, and goes; "db" stays.
abbrev events : List SessionEvent
events = event "ADDED" db ∷ event "MODIFIED" newer ∷ event "DELETED" newer ∷ event "ADDED" web ∷ []

replay_tests :
    (row (replay_events events (web ∷ [])) "web" ≡ some web)
    × (latest "db" events ≡ some (event "ADDED" db))
unfolding replay_events latest apply_event find find_index filter set
replay_tests = (refl, refl)

replay_latest_example :
    row (replay_events events (newer ∷ [])) "db"
    ≡ shown_by (latest "db" events) (row (newer ∷ []) "db")
replay_latest_example = replay_latest events (newer ∷ []) "db"

web-ne-db : web.metadata.name ≢ db.metadata.name
web-ne-db = ground (arith, eq_iff "web" "db")

abbrev table : Table
table = Quot.mk (newer ∷ [], ((λ i. i), tt))

table_event_comm_example :
    table_event (event "MODIFIED" web) (table_event (event "ADDED" db) table)
    ≡ table_event (event "ADDED" db) (table_event (event "MODIFIED" web) table)
table_event_comm_example =
    table_event_comm (event "MODIFIED" web) (event "ADDED" db) table web-ne-db

abbrev waiting : Loading.State
waiting = record {
  rows = newer ∷ [];
  loading = true;
  effective = "dev";
  current = some 4;
  next = 5;
  errors = [];
  source = some "ops";
}

failed_load_locks_example :
    let ix = (provided (page_load (rejected 0 "401" ∷ resolved 7 sample_ix ∷ []))).answer in
    (ix ≡ none)
    × (create_guarded ix "dev" sample_request ≢ ok sample_request)
    × (remove_guarded ix "dev" "web" ≢ ok ("dev", "web"))
    × ((scale_guarded ix "dev" "web" (pos 2) []).0 ≢ ok ("dev", "web", pos 2))
unfolding is_answer
failed_load_locks_example =
    failed_load_locks "401" "dev" "dev" "web" (pos 2) [] sample_request sample_request
      (resolved 7 sample_ix ∷ []) (refl, tt)
