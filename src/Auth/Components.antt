-- ===== src/Auth/Components.antt =====
-- The components that call the hook at the same time: App, the gate before the protected routes, the
-- header and the sign-in page each hold a state of their own, and share only the world.
use codespace_operator.Prelude.{
  ℕ, zero, suc, String, ◌≡◌, ◌≢◌, refl, ◌∙◌, Bool, true, false, not, ◌&&◌, some, List, [], ◌∷◌,
  arith, lookup, All,
}
use codespace_operator.Js.Result.{ok}
use codespace_operator.Js.Json.{Json, null, str, get, truthy, to_text}
use codespace_operator.Client.{user_key}
use codespace_operator.Client.Calls
use codespace_operator.Client.Actions.{World, Platform}
use codespace_operator.Auth.{
  Auth, initial, or_nullish, display_name, restore, restored, login_password, is_authenticated,
}
use codespace_operator.App.{require_auth, waiting, content}
use codespace_operator.Auth.Laws.{Action, sign_in, act, login_success}

-- `ixEnabled` of App
unfoldable pub ix_enabled : Auth → Bool
ix_enabled a = is_authenticated a && not a.is_loading

pub record Components : Type 0 where
  pub app : Auth
  -- the other components that are mounted, the newest first
  pub others : List Auth
  pub world : World

pub data Event : Type 0 where
  in_app : Action → Event
  -- another component, by its place
  in_other : ℕ → Action → Event
  -- a component is mounted, and reads the stored name; the oldest ones are unmounted
  mount : Event
  unmount : ℕ → Event

-- One component of the list acts.
unfoldable pub act_in : (Auth × World → Auth × World) → ℕ → List Auth → World → List Auth × World
act_in f i [] w = ([], w)
act_in f zero (a ∷ others) w = let (a', w') = f (a, w) in (a' ∷ others, w')
act_in f (suc i) (a ∷ others) w = let (others', w') = act_in f i others w in (a ∷ others', w')

unfoldable pub leave : ℕ → List Auth → List Auth
leave i [] = []
leave zero (a ∷ others) = others
leave (suc i) (a ∷ others) = a ∷ leave i others

module _ (p : Platform) (to_lower_case : String → String) where
  unfoldable pub step : Event → Components → Components
  step (in_app x) c =
      let (a, w) = act p to_lower_case x (c.app, c.world) in record c { app = a; world = w }
  step (in_other i x) c =
      let (others, w) = act_in (act p to_lower_case x) i c.others c.world in
      record c { others = others; world = w }
  step mount c = record c { others = initial (lookup user_key c.world.storage) ∷ c.others }
  step (unmount i) c = record c { others = leave i c.others }

  unfoldable pub run : List Event → Components → Components
  run [] c = c
  run (e ∷ es) c = run es (step e c)

-- The events of every component but App.
unfoldable pub is_elsewhere : Event → Bool
is_elsewhere (in_app x) = false
is_elsewhere (in_other i x) = true
is_elsewhere mount = true
is_elsewhere (unmount i) = true

module _ (p : Platform) (to_lower_case : String → String) where
  step-keeps_app :
      (e : Event) (c : Components) → is_elsewhere e ≡ true → (step p to_lower_case e c).app ≡ c.app
  unfolding step is_elsewhere
  step-keeps_app (in_app x) c h = cc h
  step-keeps_app (in_other i x) c h = refl
  step-keeps_app mount c h = refl
  step-keeps_app (unmount i) c h = refl

  run-keeps_app :
      (es : List Event) (c : Components)
      → All (λ e. is_elsewhere e ≡ true) es
      → (run p to_lower_case es c).app ≡ c.app
  unfolding run
  run-keeps_app [] c h = refl
  run-keeps_app (e ∷ es) c h =
      run-keeps_app es (step p to_lower_case e c) h.1 ∙ step-keeps_app e c h.0

  -- The effect of a gate, when the server says who is signed in.
  pub gate_let_in :
      (a : Auth) (w : World) (u : Json)
      → (Calls.get_current_user p w).0 ≡ ok u
      → truthy (display_name u) ≡ true
      → let gate = (restore p to_lower_case false a w).0 in
        (is_authenticated gate ≡ true) × (gate.is_loading ≡ false)
  unfolding restore restored is_authenticated
  gate_let_in a w u e t = rw e (t, refl)

  -- The sign-in page alone on the screen.
  signed_in_world :
      (username password : String) (c : Components) (page : Auth)
      → c.others ≡ page ∷ []
      → (step p to_lower_case (in_other 0 (sign_in username password)) c).world
        ≡ (login_password p to_lower_case username password page c.world).2
  unfolding step act_in act
  signed_in_world username password c page alone = rw alone refl

-- Where App found nobody signed in and the sign-in page alone is mounted, a sign-in that the server
-- accepts under a name leaves the introspection of App switched off, and so does whatever the
-- components other than App do after that. The gate that is mounted next only waits, and when the
-- server then says under a name who is signed in to this gate, it shows what is behind it.
pub app_not_told :
    (p : Platform) (to_lower_case : String → String) (username password path : String) (v u : Json)
    (c : Components) (page : Auth) (es : List Event)
    → is_authenticated c.app ≡ false
    → c.others ≡ page ∷ []
    → (Calls.local_login p username password c.world).0 ≡ ok v
    → v ≢ null
    → truthy (or_nullish (get v "user") (str username)) ≡ true
    → (Calls.get_current_user p
        (step p to_lower_case (in_other 0 (sign_in username password)) c).world).0
      ≡ ok u
    → truthy (display_name u) ≡ true
    → All (λ e. is_elsewhere e ≡ true) es
    → let signed_in = step p to_lower_case (in_other 0 (sign_in username password)) c in
      let gate = initial (lookup user_key signed_in.world.storage) in
      let known = (restore p to_lower_case false gate signed_in.world).0 in
      ((step p to_lower_case mount signed_in).others ≡ gate ∷ signed_in.others)
      × (require_auth (is_authenticated gate) gate.is_loading path ≡ waiting)
      × (require_auth (is_authenticated known) known.is_loading path ≡ content)
      × (lookup user_key signed_in.world.storage
          ≡ some (to_text (or_nullish (get v "user") (str username))))
      × (ix_enabled (run p to_lower_case es signed_in).app ≡ false)
unfolding step
app_not_told p to_lower_case username password path v u c page es out alone answered n t known_user
      display quiet =
    let c' = step p to_lower_case (in_other 0 (sign_in username password)) c in
    let gate = initial (lookup user_key c'.world.storage) in
    let (let_in, ready) = gate_let_in p to_lower_case gate c'.world u known_user display in
    let entered = login_success p to_lower_case username password v page c.world answered n t in
    (
      refl,
      unfold require_auth initial in refl,
      rw (let_in, ready) (unfold require_auth in refl),
      rw (signed_in_world p to_lower_case username password c page alone) entered.4,
      rw (run-keeps_app p to_lower_case es c' quiet) (unfold ix_enabled in ground (arith, out)),
    )
