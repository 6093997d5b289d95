-- ===== src/Context/Laws.antt =====
-- What a failed introspection means for the page.
use codespace_operator.Prelude.{
  String, ◌≡◌, ◌≢◌, refl, true, none, inl, inr, List, [], ◌∷◌, arith, All,
}
use codespace_operator.Prelude.Int.{ℤ}
use codespace_operator.Js.Result.{ok}
use codespace_operator.Types.Introspection.{Introspection}
use codespace_operator.Types.Create.{SessionCreateRequest}
use codespace_operator.Cap.{can}
use codespace_operator.Fetching.{
  State, Event, change, resolved, rejected, initial, step, run, combined_failed,
}
use codespace_operator.Sessions.{create_guarded, remove_guarded, scale_guarded}
use codespace_operator.Sessions.Guards.{create_guarded_lem}
use codespace_operator.Context.{provided, page_load, is_answer}

-- Nothing is awaited, and there is no answer.
abbrev IsLost : State Introspection → Type 0
IsLost s = (s.current ≡ none) × (s.answer ≡ none)

step-IsLost :
    (e : Event Introspection) (s : State Introspection)
    → is_answer e ≡ true
    → IsLost s
    → IsLost (step combined_failed e s)
unfolding step combined_failed is_answer
step-IsLost (change enabled) s h lost = cc h
step-IsLost (resolved id d) s h lost = ground (arith, lost)
step-IsLost (rejected id message) s h lost = ground (arith, lost)

run-IsLost :
    (es : List (Event Introspection)) (s : State Introspection)
    → All (λ e. is_answer e ≡ true) es
    → IsLost s
    → IsLost (run combined_failed es s)
unfolding run
run-IsLost [] s h lost = lost
run-IsLost (e ∷ es) s h lost =
    run-IsLost es (step combined_failed e s) h.1 (step-IsLost e s h.0 lost)

first_failure :
    (message : String)
    → IsLost (run combined_failed (change true ∷ rejected 0 message ∷ []) initial)
unfolding run step combined_failed
first_failure message = (refl, refl)

create_without :
    (effective : String) (req sent : SessionCreateRequest)
    → create_guarded none effective req ≢ ok sent
unfolding can
create_without effective req sent h = elim (create_guarded_lem none effective req sent h).allowed [
  | inl granted ↦ cc granted
  | inr (unnamed, first_one) ↦ cc first_one
]

remove_without : (ns name : String) → remove_guarded none ns name ≢ ok (ns, name)
unfolding remove_guarded can
remove_without ns name h = cc h

scale_without :
    (ns name : String) (n : ℤ) (targets : List (String × ℤ))
    → (scale_guarded none ns name n targets).0 ≢ ok (ns, name, n)
unfolding scale_guarded can
scale_without ns name n targets h = cc h

-- When the introspection fails as the page is loaded, there is no answer until the page is loaded
-- again, whatever other answers come, and none of the guarded actions lets its call of the API
-- through: nothing can be created, deleted or scaled.
pub failed_load_locks :
    (message effective ns name : String) (n : ℤ) (targets : List (String × ℤ))
    (req sent : SessionCreateRequest) (es : List (Event Introspection))
    → All (λ e. is_answer e ≡ true) es
    → let ix = (provided (page_load (rejected 0 message ∷ es))).answer in
      (ix ≡ none)
      × (create_guarded ix effective req ≢ ok sent)
      × (remove_guarded ix ns name ≢ ok (ns, name))
      × ((scale_guarded ix ns name n targets).0 ≢ ok (ns, name, n))
unfolding provided page_load run
failed_load_locks message effective ns name n targets req sent es answers =
    let lost : (provided (page_load (rejected 0 message ∷ es))).answer ≡ none =
      (run-IsLost es (run combined_failed (change true ∷ rejected 0 message ∷ []) initial) answers
        (first_failure message)).1 in
    (
      lost,
      λ h. create_without effective req sent (cc (h, lost)),
      λ h. remove_without ns name (cc (h, lost)),
      λ h. scale_without ns name n targets (cc (h, lost)),
    )
