-- ===== src/Views/SignIn/Laws.antt =====
-- What the sign-in page shows over time.
use codespace_operator.Prelude.{Bool, true, false, none, List, [], ◌∷◌, ◌≡◌, refl, All, ◌∙◌}
use codespace_operator.Views.SignIn.{Page, Event, loaded, step, run, view}

unfoldable pub is_load : Event → Bool
is_load (loaded answer) = true
is_load _ = false

step-keeps_features : (e : Event) (p : Page) → is_load e ≡ false → (step e p).features ≡ p.features
unfolding step is_load
step-keeps_features (loaded answer) p h = cc h
step-keeps_features e p h = refl

run-keeps_features :
    (es : List Event) (p : Page)
    → All (λ e. is_load e ≡ false) es
    → (run es p).features ≡ p.features
unfolding run
run-keeps_features [] p h = refl
run-keeps_features (e ∷ es) p h = run-keeps_features es (step e p) h.1 ∙ step-keeps_features e p h.0

-- Once the request for the features has failed, the page shows "Loading..." and nothing else, whatever
-- happens other than another answer to it.
failed_load_stays :
    (es : List Event) (p : Page)
    → All (λ e. is_load e ≡ false) es
    → view (run es (step (loaded none) p)) ≡ none
unfolding view
failed_load_stays es p h = rw (run-keeps_features es (step (loaded none) p) h) (unfold step in refl)
