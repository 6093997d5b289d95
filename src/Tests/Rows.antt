-- ===== src/Tests/Rows.antt =====
-- The rows of the table, the guards of the actions, and the search.
use codespace_operator.Prelude.{
  suc, String, ◌≡◌, ◌≢◌, refl, true, none, some, List, [], ◌∷◌, ◌++◌, arith, eq_iff, lookup, insert,
  without, find, filter,
}
use codespace_operator.Prelude.Int.{pos}
use codespace_operator.Js.Result.{ok, err}
use codespace_operator.Js.Text.{trim, includes_text}
use codespace_operator.Types.Session.{UiSession}
use codespace_operator.Types.Introspection.{action_name}
use codespace_operator.Cap.{session_flag, flag, can}
use codespace_operator.Sessions.{
  apply_event, clear_target, find_index, set, create_guarded, remove_guarded, scale_guarded,
  resolve_namespace, settle, require_fields, effective_ns, may_list, with_namespace,
}
use codespace_operator.Sessions.Rows.{held, row, other_namespace_lost}
use codespace_operator.Sessions.Guards.{create_guarded_lem, IsCleared}
use codespace_operator.Sessions.Loading.{
  State, resolved, streamed, rejected, step, run, stale_answer_ignored,
}
use codespace_operator.Sessions.Search.{matches, managed_by, filtered_sessions}
use codespace_operator.Tests.Samples.{session, event, sample_ix, sample_request}

abbrev web : UiSession
web = session "dev" "web" "code:1"

abbrev other_web : UiSession
other_web = session "ops" "web" "code:2"

abbrev lab : UiSession
lab = session "dev" "lab" "jupyter"

abbrev rows : List UiSession
rows = web ∷ lab ∷ []

event_tests :
    (apply_event (event "DELETED" other_web) rows ≡ lab ∷ [])
    × (apply_event (event "MODIFIED" other_web) rows ≡ other_web ∷ lab ∷ [])
    × (apply_event (event "ADDED" (session "dev" "new" "x")) rows
        ≡ session "dev" "new" "x" ∷ web ∷ lab ∷ [])
    × (clear_target (event "MODIFIED" web) (("dev/web", pos 2) ∷ ("dev/lab", pos 0) ∷ [])
        ≡ ("dev/lab", pos 0) ∷ [])
unfolding apply_event find_index set filter clear_target lookup without
event_tests = (refl, refl, refl, refl)

dev-ne-ops : web.metadata.namespace ≢ other_web.metadata.namespace
dev-ne-ops = ground (arith, eq_iff "dev" "ops")

-- Both sessions of the name "web" are listed, and the deletion of the one of "ops" takes both out.
other_namespace_lost_example :
    let after = apply_event (event "DELETED" other_web) (web ∷ other_web ∷ []) in
    (suc (held "dev" "web" after) ≡ 1) × (row after "web" ≡ none)
unfolding find
other_namespace_lost_example =
    other_namespace_lost web (event "DELETED" other_web) (web ∷ other_web ∷ []) refl refl dev-ne-ops

guard_tests :
    (remove_guarded (some sample_ix) "dev" "web" ≡ err "Not allowed to delete in dev")
    × (remove_guarded (some sample_ix) "ops" "web" ≡ ok ("ops", "web"))
    × ((scale_guarded (some sample_ix) "dev" "web" (pos 2) []).1 ≡ [])
    × (create_guarded (some sample_ix) "All" sample_request
        ≡ ok (with_namespace sample_request "dev"))
    × (create_guarded (some sample_ix) "ops" sample_request ≡ err "Not allowed to create in ops")
    × (create_guarded none "All" sample_request ≡ err "Pick a namespace to create the session in.")
    × (effective_ns (some sample_ix) "All" ≡ "dev")
unfolding remove_guarded scale_guarded create_guarded resolve_namespace settle require_fields can
    flag lookup action_name effective_ns may_list session_flag find insert
guard_tests = (refl, refl, refl, refl, refl, refl, refl)

create_guarded_example :
    IsCleared (some sample_ix) "All" sample_request (with_namespace sample_request "dev")
create_guarded_example =
    create_guarded_lem (some sample_ix) "All" sample_request (with_namespace sample_request "dev")
      guard_tests.3

abbrev page : State
page = record {
  rows = rows;
  loading = true;
  effective = "dev";
  current = some 4;
  next = 5;
  errors = [];
  source = none;
}

not-awaited : page.current ≢ some 2
not-awaited e = ground (arith, e)

stale_answer_ignored_example :
    (step (resolved 2 []) (run (streamed (event "ADDED" other_web) ∷ []) page)
      ≡ run (streamed (event "ADDED" other_web) ∷ []) page)
    × ((step (rejected 2 "") (run (streamed (event "ADDED" other_web) ∷ []) page)).rows
        ≡ (run (streamed (event "ADDED" other_web) ∷ []) page).rows)
    × ((step (rejected 2 "") (run (streamed (event "ADDED" other_web) ∷ []) page)).loading
        ≡ (run (streamed (event "ADDED" other_web) ∷ []) page).loading)
    × ((step (rejected 2 "") (run (streamed (event "ADDED" other_web) ∷ []) page)).errors
        ≡ (run (streamed (event "ADDED" other_web) ∷ []) page).errors
          ++ "Failed to load sessions" ∷ [])
stale_answer_ignored_example =
    stale_answer_ignored (streamed (event "ADDED" other_web) ∷ []) 2 page [] ""
      (record { begun = omega arith; left = not-awaited })

-- An engine that knows no capital letters serves as `toLowerCase`.
abbrev small : String → String
small s = s

search_tests :
    (filtered_sessions small rows "  jup " ≡ lab ∷ []) × (filtered_sessions small rows "  " ≡ rows)
unfolding filtered_sessions matches managed_by filter trim includes_text lookup
search_tests = (refl, refl)
