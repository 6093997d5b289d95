-- ===== src/Fetching/Laws.antt =====
-- What holds of the fetching hooks, whatever the order of the answers.
use codespace_operator.Prelude.{
  ℕ, ◌<◌, String, ◌≡◌, ◌≢◌, refl, Bool, true, false, Option, none, some, List, [], ◌∷◌, arith, inl,
  inr, ◌⊎◌,
}
use codespace_operator.Fetching.{
  State, Event, change, resolved, rejected, initial, step, run, user_failed, server_failed,
  combined_failed,
}

abbrev pub is_awaited : Option ℕ → Bool
is_awaited none = false
is_awaited (some c) = true

-- The handler of an error leaves the bookkeeping alone.
pub record IsHandler {D : Type 0} (failed : String → State D → State D) : Type 0 where
  pub keeps_current : (m : String) (s : State D) → (failed m s).current ≡ s.current
  pub keeps_next : (m : String) (s : State D) → (failed m s).next ≡ s.next

user_failed-IsHandler : {D : Type 0} → IsHandler (user_failed {D = D})
unfolding user_failed
user_failed-IsHandler = record { keeps_current = λ m s. refl; keeps_next = λ m s. refl }

combined_failed-IsHandler : {D : Type 0} → IsHandler (combined_failed {D = D})
unfolding combined_failed
combined_failed-IsHandler = record { keeps_current = λ m s. refl; keeps_next = λ m s. refl }

server_failed-IsHandler : {D : Type 0} → IsHandler (server_failed {D = D})
unfolding server_failed
server_failed-IsHandler = record {
  keeps_current = λ m s. ground arith;
  keeps_next = λ m s. ground arith;
}

module _ {D : Type 0} (failed : String → State D → State D) where
  step-loading :
      (e : Event D) (s : State D)
      → s.loading ≡ is_awaited s.current
      → (step failed e s).loading ≡ is_awaited (step failed e s).current
  unfolding step
  step-loading (change enabled) s h = ground arith
  step-loading (resolved id d) s h = ground arith
  step-loading (rejected id m) s h = ground arith

  run-loading :
      (es : List (Event D)) (s : State D)
      → s.loading ≡ is_awaited s.current
      → (run failed es s).loading ≡ is_awaited (run failed es s).current
  unfolding run
  run-loading [] s h = h
  run-loading (e ∷ es) s h = run-loading es (step failed e s) (step-loading e s h)

-- From the first render on, for each of the three hooks: the hook is loading exactly while an answer
-- that is not cancelled is awaited.
loading_iff_awaited :
    {D : Type 0} (es : List (Event D))
    → ((run user_failed es initial).loading ≡ is_awaited (run user_failed es initial).current)
      × ((run server_failed es initial).loading ≡ is_awaited (run server_failed es initial).current)
      × ((run combined_failed es initial).loading
          ≡ is_awaited (run combined_failed es initial).current)
loading_iff_awaited es = (
  run-loading user_failed es initial refl,
  run-loading server_failed es initial refl,
  run-loading combined_failed es initial refl,
)

-- A run that has begun and whose answer is not awaited any more.
pub record IsSuperseded {D : Type 0} (id : ℕ) (s : State D) : Type 0 where
  pub begun : id < s.next
  pub left : s.current ≢ some id

module _ {D : Type 0} (failed : String → State D → State D) (ok : IsHandler failed) where
  step-IsSuperseded :
      (e : Event D) (id : ℕ) (s : State D) → IsSuperseded id s → IsSuperseded id (step failed e s)
  unfolding step
  step-IsSuperseded (change enabled) id s h = ground arith
  step-IsSuperseded (resolved k d) id s h = ground arith
  step-IsSuperseded (rejected k m) id s h = ground (arith, ok.keeps_next m s)

  run-IsSuperseded :
      (es : List (Event D)) (id : ℕ) (s : State D)
      → IsSuperseded id s
      → IsSuperseded id (run failed es s)
  unfolding run
  run-IsSuperseded [] id s h = h
  run-IsSuperseded (e ∷ es) id s h =
      run-IsSuperseded es id (step failed e s) (step-IsSuperseded e id s h)

  dropped :
      (id : ℕ) (s : State D) (d : D) (m : String)
      → IsSuperseded id s
      → (step failed (resolved id d) s ≡ s) × (step failed (rejected id m) s ≡ s)
  unfolding step
  dropped id s d m h = ground (arith, h.left)

-- Once a run of one of the three hooks is superseded, neither its answer nor its failure changes
-- anything, whatever happened in between.
pub superseded_dropped :
    {D : Type 0} (failed : String → State D → State D) (es : List (Event D)) (id : ℕ) (s : State D)
    (d : D) (m : String)
    → (failed ≡ user_failed) ⊎ ((failed ≡ server_failed) ⊎ (failed ≡ combined_failed))
    → IsSuperseded id s
    → (step failed (resolved id d) (run failed es s) ≡ run failed es s)
      × (step failed (rejected id m) (run failed es s) ≡ run failed es s)
superseded_dropped failed es id s d m which h =
    dropped failed (handler which) id (run failed es s) d m
      (run-IsSuperseded failed (handler which) es id s h)
  where
    handler :
        (failed ≡ user_failed) ⊎ ((failed ≡ server_failed) ⊎ (failed ≡ combined_failed))
        → IsHandler failed
    handler (inl e) = rw e user_failed-IsHandler
    handler (inr (inl e)) = rw e server_failed-IsHandler
    handler (inr (inr e)) = rw e combined_failed-IsHandler
