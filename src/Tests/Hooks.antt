-- ===== src/Tests/Hooks.antt =====
-- The fetching hooks and the toasts.
use codespace_operator.Prelude.{
  ℕ, String, ◌≡◌, ◌≢◌, refl, inl, inr, true, none, some, List, [], ◌∷◌, arith,
}
use codespace_operator.Alerts.{Alert, info}
use codespace_operator.Fetching.{
  State, Event, change, resolved, rejected, initial, step, run, user_failed, server_failed,
}
use codespace_operator.Fetching.Laws.{superseded_dropped}

abbrev events : List (Event ℕ)
events = change true ∷ change true ∷ resolved 0 7 ∷ []

fetch_tests :
    ((run user_failed events initial).answer ≡ none)
    × ((run user_failed (resolved 1 8 ∷ []) (run user_failed events initial)).answer ≡ some 8)
    × ((run user_failed (rejected 1 "" ∷ []) (run user_failed events initial)).error
        ≡ some "Failed to get user information")
unfolding run step user_failed
fetch_tests = (refl, refl, refl)

abbrev fetching : State ℕ
fetching = record { answer = some 3; loading = true; error = none; current = some 1; next = 2 }

not-awaited : fetching.current ≢ some 0
not-awaited e = ground (arith, e)

superseded_dropped_example :
    (step server_failed (resolved 0 9) (run server_failed (change true ∷ []) fetching)
      ≡ run server_failed (change true ∷ []) fetching)
    × (step server_failed (rejected 0 "late") (run server_failed (change true ∷ []) fetching)
        ≡ run server_failed (change true ∷ []) fetching)
superseded_dropped_example =
    superseded_dropped server_failed (change true ∷ []) 0 fetching 9 "late" (inr (inl refl))
      (record { begun = omega arith; left = not-awaited })

abbrev alert : String → Alert
alert key = record { key = key; title = "t"; variant = info }
