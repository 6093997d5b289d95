-- ===== src/Fetching.antt =====
-- ui/src/hooks/useIntrospection.ts: the hooks that fetch an answer whenever their inputs change. A run
-- of the effect is known by its number, and its cleanup marks it as cancelled.
pub mod Laws
use codespace_operator.Prelude.{
  ℕ, suc, String, Bool, true, false, not, ◌&&◌, Option, none, some, List, [], ◌∷◌, ◌==◌, eqb,
  if◌then◌else◌,
}
use codespace_operator.Js.Text.{includes_text}

module _ (D : Type 0) where
  -- `current` is the run whose answer is awaited and not cancelled.
  pub record State : Type 0 where
    pub answer : Option D
    pub loading : Bool
    pub error : Option String
    pub current : Option ℕ
    pub next : ℕ

  pub data Event : Type 0 where
    -- the effect runs, with `enabled`
    change : Bool → Event
    resolved : ℕ → D → Event
    rejected : ℕ → String → Event

-- `e?.message || other`
abbrev pub message_or : String → String → String
message_or message other = if message == "" then other else message

abbrev pub is_live : ℕ → Option ℕ → Bool
is_live id none = false
is_live id (some c) = eqb id c

module _ {D : Type 0} where
  abbrev pub initial : State D
  initial = record { answer = none; loading = false; error = none; current = none; next = 0 }

  -- The handler of an error, which differs from hook to hook, is a parameter.
  unfoldable pub step : (String → State D → State D) → Event D → State D → State D
  step failed (change enabled) s =
      let started = record s { loading = true; current = some s.next; next = suc s.next } in
      if not enabled then record s { loading = false; current = none } else started
  step failed (resolved id d) s =
      if is_live id s.current
      then record s { answer = some d; error = none; loading = false; current = none }
      else s
  step failed (rejected id message) s =
      if is_live id s.current
      then record (failed message s) { loading = false; current = none }
      else s

  unfoldable pub run : (String → State D → State D) → List (Event D) → State D → State D
  run failed [] s = s
  run failed (e ∷ es) s = run failed es (step failed e s)

  -- useUserIntrospection
  unfoldable pub user_failed : String → State D → State D
  user_failed message s = record s {
    error = some (message_or message "Failed to get user information");
  }

  -- useServerIntrospection: a lack of permission clears the answer and is no error.
  unfoldable pub server_failed : String → State D → State D
  server_failed message s =
      let shown = record s {
        error = some (message_or message "Failed to get server information");
      } in
      if includes_text message "Insufficient permissions"
      then record s { answer = none; error = none }
      else shown

  -- useIntrospection
  unfoldable pub combined_failed : String → State D → State D
  combined_failed message s = record s { error = some (message_or message "Failed to introspect") }

  -- What the hooks return as `loading`.
  abbrev pub shown_loading : Bool → State D → Bool
  shown_loading enabled s = enabled && s.loading
