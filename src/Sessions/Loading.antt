-- ===== src/Sessions/Loading.antt =====
-- ui/src/hooks/useSessions.ts: the list effect, `refresh` and the stream as a state machine. A run of
-- the effect is known by its number; its cleanup marks it as cancelled, and the closed stream of an
-- earlier run sends nothing more. The answers come in any order.
use codespace_operator.Prelude.{
  ℕ, suc, ◌<◌, String, ◌≡◌, ◌≢◌, Bool, true, false, not, ◌&&◌, Option, none, some, List, [], ◌∷◌,
  ◌++◌, arith, ◌==◌, eqb, if◌then◌else◌,
}
use codespace_operator.Types.Session.{UiSession, SessionEvent}
use codespace_operator.Sessions.{apply_event}

-- `current` is the run whose answer is awaited and not cancelled. `source` is no state of the code:
-- it says for which namespace the rows were listed last.
pub record State : Type 0 where
  pub rows : List UiSession
  pub loading : Bool
  pub effective : String
  pub current : Option ℕ
  pub next : ℕ
  pub errors : List String
  pub source : Option String

pub data Event : Type 0 where
  -- the effect runs: the namespace, `enabled`, and whether "list" is granted in "*"
  change : String → Bool → Bool → Event
  resolved : ℕ → List UiSession → Event
  rejected : ℕ → String → Event
  -- `refresh` begins, and ends with the rows of the namespace that it asked for, or fails
  refresh : Bool → Event
  refreshed : String → List UiSession → Event
  refresh_failed : Event
  streamed : SessionEvent → Event
  unmount : Event

abbrev no_list_permission : String
no_list_permission = "You do not have list permissions across all namespaces."

abbrev or_default : String → String
or_default message = if message == "" then "Failed to load sessions" else message

-- `!cancelled` in the run of that number
abbrev pub is_live : ℕ → Option ℕ → Bool
is_live id none = false
is_live id (some c) = eqb id c

unfoldable pub step : Event → State → State
step (change effective enabled allowed) s =
    let stopped = record s { effective = effective; current = none } in
    let denied = record stopped { loading = false; errors = s.errors ++ no_list_permission ∷ [] } in
    let started = record stopped { loading = true; current = some s.next; next = suc s.next } in
    if not enabled then stopped else if effective == "All" && not allowed then denied else started
step (resolved id data_rows) s =
    if is_live id s.current
    then record s { rows = data_rows; loading = false; current = none; source = some s.effective }
    else s
step (rejected id message) s =
    let reported = record s { errors = s.errors ++ or_default message ∷ [] } in
    if is_live id s.current then record reported { loading = false; current = none } else reported
step (refresh enabled) s = if not enabled then s else record s { loading = true }
step (refreshed asked data_rows) s = record s {
  rows = data_rows;
  loading = false;
  source = some asked;
}
step refresh_failed s = record s { loading = false }
step (streamed ev) s = record s { rows = apply_event ev s.rows }
step unmount s = record s { current = none }

unfoldable pub run : List Event → State → State
run [] s = s
run (e ∷ es) s = run es (step e s)

-- A run that has begun and whose answer is not awaited any more.
pub record IsSuperseded (id : ℕ) (s : State) : Type 0 where
  pub begun : id < s.next
  pub left : s.current ≢ some id

step-IsSuperseded :
    (e : Event) (id : ℕ) (s : State) → IsSuperseded id s → IsSuperseded id (step e s)
unfolding step
step-IsSuperseded (change effective enabled allowed) id s h = ground arith
step-IsSuperseded (streamed ev) id s h = record { begun = h.begun; left = h.left }
step-IsSuperseded e id s h = ground arith

run-IsSuperseded :
    (es : List Event) (id : ℕ) (s : State) → IsSuperseded id s → IsSuperseded id (run es s)
unfolding run
run-IsSuperseded [] id s h = h
run-IsSuperseded (e ∷ es) id s h = run-IsSuperseded es id (step e s) (step-IsSuperseded e id s h)

-- Once a run of the effect is superseded, its answer changes nothing, whatever happened in between;
-- its failure changes neither the rows nor the loading mark, but is reported all the same.
pub stale_answer_ignored :
    (es : List Event) (id : ℕ) (s : State) (found : List UiSession) (message : String)
    → IsSuperseded id s
    → (step (resolved id found) (run es s) ≡ run es s)
      × ((step (rejected id message) (run es s)).rows ≡ (run es s).rows)
      × ((step (rejected id message) (run es s)).loading ≡ (run es s).loading)
      × ((step (rejected id message) (run es s)).errors
          ≡ (run es s).errors
            ++ (if message == "" then "Failed to load sessions" else message) ∷ [])
stale_answer_ignored es id s found message h =
    stale id (run es s) found message (run-IsSuperseded es id s h)
  where
    stale :
        (id : ℕ) (t : State) (found : List UiSession) (message : String)
        → IsSuperseded id t
        → (step (resolved id found) t ≡ t)
          × ((step (rejected id message) t).rows ≡ t.rows)
          × ((step (rejected id message) t).loading ≡ t.loading)
          × ((step (rejected id message) t).errors
              ≡ t.errors ++ (if message == "" then "Failed to load sessions" else message) ∷ [])
    stale id t found message k = unfold step in ground (arith, k.left)

-- The rows of the namespace that is left can replace those of the namespace that is shown: the answer
-- of a refresh is not dropped when the effect runs for another namespace in between.
late_refresh :
    (s : State) (ns : String) (ours theirs : List UiSession)
    → ns ≢ "All"
    → s.effective ≢ ns
    → let t =
        run
          (refresh true
            ∷ change ns true true
            ∷ resolved s.next ours
            ∷ refreshed s.effective theirs
            ∷ [])
          s in
      (t.rows ≡ theirs) × (t.effective ≡ ns) × (t.source ≢ some t.effective)
unfolding run step
late_refresh s ns ours theirs n m = ground (arith, m, n)
