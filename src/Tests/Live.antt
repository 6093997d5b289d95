-- ===== src/Tests/Live.antt =====
-- The stream against the server, its messages as they come in, and the targets that wait.
use codespace_operator.Prelude.{
  find, String, ◌≡◌, ◌≢◌, ◌↔◌, ◌⊎◌, inl, inr, refl, true, Option, none, some, List, [], ◌∷◌, ◌++◌,
  map, arith, ◌==◌, if◌then◌else◌, lookup, In,
}
use codespace_operator.Prelude.Int.{◌+ℤ◌, clamp, pos}
use codespace_operator.Js.Result.{ok, err}
use codespace_operator.Js.Text.{show}
use codespace_operator.Js.Json.{Json, obj, end, stringify, get}
use codespace_operator.Js.Value.{exception, Engine}
use codespace_operator.Types.Session.{UiSession, SessionEvent}
use codespace_operator.Types.Introspection.{action_name, Introspection, list}
use codespace_operator.Client.Actions.{Platform}
use codespace_operator.Cap.{can, flag, namespaces_where}
use codespace_operator.Sessions.{target_key, scale_guarded, effective_ns}
use codespace_operator.Sessions.Rows.{row}
use codespace_operator.Sessions.Loading as Loading
use codespace_operator.Sessions.Replay.{latest, replay_events}
use codespace_operator.Sessions.Server.{Cluster, IsListing, happen_all, loaded, loaded_agrees_iff}
use codespace_operator.Sessions.Targets.{replay_targets, mentions, target_waits_for_event}
use codespace_operator.Sessions.Effective.{effective_can_list}
use codespace_operator.Sessions.Stream.{Page, message, change, unmount, is_open, step, run}
use codespace_operator.Sessions.Stream.Open.{IsSingle}
use codespace_operator.Sessions.Stream.Encoding.{session_json, event_json}
use codespace_operator.Sessions.Stream.Refines.{row_values, run-typed}
use codespace_operator.Sessions.Stream.Crash.{
  is_broken, message_crashes_iff, broken_message_is_final,
}
use codespace_operator.Sessions.Stream.Sound.{IsSound, run-IsSound}
use codespace_operator.Sessions.Stream.Connections.{closed_connection_silent}
use codespace_operator.Views.Rows.{steady, replicas_toward, current_replicas}
use codespace_operator.Views.Page.{handle_scale}
use codespace_operator.Views.Page.Scaled.{shown, scaled_row}
use codespace_operator.Views.Boundary.{
  get_derived_state_from_error, render, error_boundary, mounted,
}
use codespace_operator.Tests.Samples.{
  session, event, sample_ix, some_domains, permissions, platform_with, reply_with,
}

abbrev web : UiSession
web = session "dev" "web" "code:1"

abbrev newer : UiSession
newer = session "dev" "web" "code:2"

abbrev db : UiSession
db = session "dev" "db" "pg:1"

-- "web" alone is on the server when the list is made; it changes before the answer is there, and "db"
-- appears after it.
abbrev cluster : Cluster
cluster ns name = if ns == "dev" then row (web ∷ []) name else none

cluster-IsListing : IsListing "dev" (web ∷ []) cluster
cluster-IsListing name = refl

abbrev early : List SessionEvent
early = event "MODIFIED" newer ∷ []

abbrev late : List SessionEvent
late = event "ADDED" db ∷ []

abbrev awaiting : Loading.State
awaiting = record {
  rows = [];
  loading = true;
  effective = "dev";
  current = some 4;
  next = 5;
  errors = [];
  source = none;
}

loaded_agrees_iff_example :
    (row (loaded 4 (web ∷ []) early late awaiting).rows "web"
      ≡ happen_all (early ++ late) cluster "dev" "web")
    ↔ ((latest "web" late ≢ none) ⊎ (happen_all early cluster "dev" "web" ≡ cluster "dev" "web"))
loaded_agrees_iff_example =
    loaded_agrees_iff awaiting 4 "dev" (web ∷ []) cluster early late refl cluster-IsListing
      (refl, tt) (refl, tt) "web"

-- A user who may scale in "dev".
abbrev scaler : Introspection
scaler = record sample_ix { domains = some (("dev", permissions (("scale", true) ∷ [])) ∷ []) }

target_waits_for_event_example :
    let (sent, noted) = scale_guarded (some scaler) "dev" "web" (pos 2) [] in
    (sent ≡ ok ("dev", "web", pos 2))
    × (lookup (target_key "dev" "web") (replay_targets late noted)
        ≡ (if mentions (target_key "dev" "web") late then none else some (pos 2)))
    × ((key : String)
        → key ≢ target_key "dev" "web"
        → lookup key (replay_targets late noted) ≡ lookup key (replay_targets late []))
unfolding can flag lookup action_name
target_waits_for_event_example =
    target_waits_for_event (some scaler) "dev" "web" (pos 2) [] late refl

effective_can_list_example :
    (nss : List String) × (namespaces_where (some sample_ix) list ≡ ok nss)
    × ((In (effective_ns (some sample_ix) "All") nss
          × (can (some sample_ix) (effective_ns (some sample_ix) "All") list ≡ true))
        ⊎ ((effective_ns (some sample_ix) "All" ≡ "default") × ((ns : String) → ¬ In ns nss)))
unfolding can flag lookup action_name
effective_can_list_example =
    effective_can_list sample_ix some_domains refl (refl, (refl, (refl, tt))) refl refl refl

abbrev server : Platform
server = platform_with (reply_with 200 none)

abbrev engine : Engine
engine v key = key

-- Two texts that JSON.parse reads: an event, and an object without properties.
abbrev parse : String → Option Json
parse text =
    if text == stringify (event_json (event "ADDED" db))
    then some (event_json (event "ADDED" db))
    else if text == "{}"
    then some (obj end)
    else none

abbrev live_page : Page
live_page = record {
  rows = row_values (web ∷ []);
  targets = ("dev/db", pos 2) ∷ [];
  opened = [];
  connected = 0 ∷ [];
  es_ref = some 0;
  cleanup = some 0;
  next = 1;
  crash = none;
}

live_page-IsSingle : IsSingle live_page
live_page-IsSingle = inr (0, refl, refl, omega arith)

run-typed_example :
    run server engine parse
      (map (λ (ev : SessionEvent). message 0 (stringify (event_json ev))) (event "ADDED" db ∷ []))
      live_page
    ≡ record live_page {
      rows = row_values (replay_events (event "ADDED" db ∷ []) (web ∷ []));
      targets = replay_targets (event "ADDED" db ∷ []) live_page.targets;
    }
unfolding stringify event_json session_json show is_open
run-typed_example =
    run-typed server engine parse 0 (event "ADDED" db ∷ []) (web ∷ []) live_page refl refl refl
      (refl, tt)

message_crashes_iff_example :
    ((step server engine parse (message 0 "{}") live_page).crash ≢ none)
    ↔ (is_broken (parse "{}") ≡ true)
unfolding is_open
message_crashes_iff_example =
    message_crashes_iff server engine parse 0 "{}" (web ∷ []) live_page refl refl refl

broken_message_is_final_example :
    (m : String) × let e = exception "TypeError" m in
      let t = run server engine parse (message 0 "{}" ∷ change "ops" true ∷ []) live_page in
      (t.crash ≡ some e)
      × (t.connected ≡ [])
      × (mounted (get_derived_state_from_error e) ≡ error_boundary ∷ [])
      × (render (get_derived_state_from_error e) ≡ some (if m == "" then "TypeError" else m))
unfolding stringify event_json session_json get lookup show is_open
broken_message_is_final_example =
    broken_message_is_final server engine parse 0 "{}" (change "ops" true ∷ []) live_page refl
      live_page-IsSingle refl refl

closed_connection_silent_example :
    let t = run server engine parse (change "ops" true ∷ message 1 "{}" ∷ []) live_page in
    step server engine parse (message 0 "{}") t ≡ t
closed_connection_silent_example =
    closed_connection_silent server engine parse 0 (change "ops" true) (message 1 "{}" ∷ []) "{}"
      live_page refl live_page-IsSingle (omega arith) refl

-- The server refuses the request, and the events are about another session.
scaled_row_example :
    let noted = (handle_scale (some scaler) (λ target. err "refused") [] (pos 1) web).1 in
    shown (replay_events late (web ∷ [])) (replay_targets late noted) "web"
    ≡ elim (latest "web" late) [
      | none ↦ some (
        web,
        replicas_toward (current_replicas web) (some (pos (clamp (current_replicas web +ℤ pos 1)))),
      )
      | some ev ↦
          if ev.type == "DELETED"
          then none
          else some (ev.object, steady (current_replicas ev.object))
    ]
unfolding can flag lookup action_name find
scaled_row_example =
    scaled_row (some scaler) (λ target. err "refused") [] (pos 1) web (web ∷ []) late refl refl
      (refl, tt)

abbrev first_page : Page
first_page = record {
  rows = [];
  targets = [];
  opened = [];
  connected = [];
  es_ref = none;
  cleanup = none;
  next = 0;
  crash = none;
}

first_page-IsSound : IsSound server.base first_page
first_page-IsSound = record {
  counted = refl;
  single = inl refl;
  silenced = λ e c. refl;
  streams = tt;
}

run-IsSound_example :
    IsSound server.base
      (run server engine parse (change "dev" true ∷ message 0 "{}" ∷ unmount ∷ []) first_page)
run-IsSound_example =
    run-IsSound server engine parse (change "dev" true ∷ message 0 "{}" ∷ unmount ∷ []) first_page
      first_page-IsSound
