-- ===== src/Context.antt =====
-- ui/src/context/IntrospectionContext.tsx: the one introspection that the whole app shares. The provider
-- stands above the routes, so it lives as long as the page.
pub mod Laws
use codespace_operator.Prelude.{String, Bool, true, false, Option, none, some, List, [], ◌∷◌}
use codespace_operator.Types.Introspection.{Introspection}
use codespace_operator.Fetching.{
  State, Event, change, resolved, rejected, initial, step, run, combined_failed, shown_loading,
}

-- What the context gives, besides `refresh`.
pub record Ctx : Type 0 where
  pub answer : Option Introspection
  pub loading : Bool
  pub error : Option String

-- What it gives outside of a provider.
abbrev pub default_ctx : Ctx
default_ctx = record { answer = none; loading = true; error = none }

-- `value` of the provider, from the state of its hook, which is always enabled.
unfoldable pub provided : State Introspection → Ctx
provided s = record { answer = s.answer; loading = shown_loading true s; error = s.error }

-- The effect of the hook runs when the page is loaded. Its inputs never change, so it does not run
-- again: what follows are the answers.
unfoldable pub page_load : List (Event Introspection) → State Introspection
page_load answers = run combined_failed (change true ∷ answers) initial

-- An answer or a failure of some run.
unfoldable pub is_answer : Event Introspection → Bool
is_answer (change enabled) = false
is_answer (resolved id d) = true
is_answer (rejected id message) = true

-- `refresh`: the page is loaded again.
unfoldable pub refresh : List (Event Introspection) → State Introspection → State Introspection
refresh answers s = page_load answers
