-- ===== src/Auth/Tab.antt =====
-- The components that call the hook, step by step: one asks for its user when it is mounted, and the
-- answer comes in any order with what the others do. Only its unmounting cancels it.
pub mod SignedOut
use codespace_operator.Prelude.{
  ℕ, zero, suc, String, ◌≡◌, refl, Bool, true, false, Option, none, some, List, [], ◌∷◌, lookup,
}
use codespace_operator.Js.Result.{Result, ok, err}
use codespace_operator.Js.Json.{Json}
use codespace_operator.Client.{user_key, api_request, api_fetch, handle_response, json}
use codespace_operator.Client.Calls
use codespace_operator.Client.Actions.{
  Platform, World, Request, Response, Exec, continue, received, send, ◌>>=◌,
}
use codespace_operator.Auth.{Auth, initial, restored, login_password, logout}

-- A mounted component, and the reply to its request for the user, which it has not seen yet.
pub record Component : Type 0 where
  pub auth : Auth
  pub awaited : Option (Result Response)

pub record Tab : Type 0 where
  pub components : List Component
  pub world : World

pub data Event : Type 0 where
  mount : Event
  -- by the place of the component, the newest first
  answered unmount sign_out : ℕ → Event
  sign_in : ℕ → String → String → Event

-- One component of the list acts on itself and the world.
unfoldable pub at_place :
    (Component → World → Component × World) → ℕ → List Component → World → List Component × World
at_place f i [] w = ([], w)
at_place f zero (c ∷ cs) w = let (c', w') = f c w in (c' ∷ cs, w')
at_place f (suc i) (c ∷ cs) w = let (cs', w') = at_place f i cs w in (c ∷ cs', w')

unfoldable pub without_place : ℕ → List Component → List Component
without_place i [] = []
without_place zero (c ∷ cs) = cs
without_place (suc i) (c ∷ cs) = c ∷ without_place i cs

-- `getCurrentUser` in its two parts: the request, and what is done with the reply.
abbrev pub me_request : Platform → Request
me_request p = api_request p.base "/api/v1/me" (Calls.with_method "GET")

unfoldable pub heard : Platform → Result Response → Exec Json
heard p r = continue r (λ res. handle_response res >>= json p)

continue_bind :
    {A B C : Type 0} (r : Result A) (f : A → Exec B) (g : B → Exec C) (w : World)
    → continue r (λ a. f a >>= g) w ≡ continue (continue r f w).0 g (continue r f w).1
unfolding ◌>>=◌
continue_bind (ok a) f g w = refl
continue_bind (err m) f g w = refl

-- The parts are the call where nothing comes between them.
halves :
    (p : Platform) (w : World)
    → let (r, w') = send p (me_request p) w in heard p r w' ≡ Calls.get_current_user p w
unfolding heard Calls.get_current_user api_fetch ◌>>=◌
halves p w = let (r, w') = send p (me_request p) w in continue_bind r handle_response (json p) w'

module _ (p : Platform) (to_lower_case : String → String) where
  -- The reply reaches the effect, which was not cancelled.
  unfoldable pub seen : Result Response → Auth → World → Component × World
  seen r a w =
      let (answer, w') = heard p r w in
      let (a', w'') = restored p to_lower_case false answer a w' in
      (record { auth = a'; awaited = none }, w'')

  unfoldable pub see_reply : Option (Result Response) → Component → World → Component × World
  see_reply none c w = (c, w)
  see_reply (some r) c w = seen r c.auth w

  abbrev pub see_answer : Component → World → Component × World
  see_answer c w = see_reply c.awaited c w

  unfoldable pub leave_session : Component → World → Component × World
  leave_session c w = let (a, w') = logout p to_lower_case c.auth w in (record c { auth = a }, w')

  unfoldable pub enter : String → String → Component → World → Component × World
  enter username password c w =
      let (_, a, w') = login_password p to_lower_case username password c.auth w in
      (record c { auth = a }, w')

  unfoldable pub step : Event → Tab → Tab
  step mount t =
      let (r, w) = send p (me_request p) t.world in
      record {
        components =
            record { auth = initial (lookup user_key t.world.storage); awaited = some r }
            ∷ t.components;
        world = w;
      }
  step (answered i) t =
      let (cs, w) = at_place see_answer i t.components t.world in
      record { components = cs; world = w }
  step (unmount i) t = record t { components = without_place i t.components }
  step (sign_out i) t =
      let (cs, w) = at_place leave_session i t.components t.world in
      record { components = cs; world = w }
  step (sign_in i username password) t =
      let (cs, w) = at_place (enter username password) i t.components t.world in
      record { components = cs; world = w }

  unfoldable pub run : List Event → Tab → Tab
  run [] t = t
  run (e ∷ es) t = run es (step e t)
