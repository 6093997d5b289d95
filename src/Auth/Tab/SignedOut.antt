-- ===== src/Auth/Tab/SignedOut.antt =====
-- A tab in which nobody is signed in.
use codespace_operator.Prelude.{
  ℕ, zero, suc, String, ◌≡◌, refl, ap, ◌∙◌, Bool, true, false, Option, none, some, List, [], ◌∷◌,
  arith, eq_refl, All, lookup, lookup-without, if◌then◌else◌,
}
use codespace_operator.Js.Result.{Result, ok, err}
use codespace_operator.Js.Json.{truthy}
use codespace_operator.Client.{user_key, handle_response, json, is_ok, friendly}
use codespace_operator.Client.Laws.Answers.{handle_response_lem}
use codespace_operator.Client.Actions.{
  Platform, World, Response, Request, Exec, continue, received, send, ◌>>=◌,
}
use codespace_operator.Auth.{Auth, initial, restored, forget_user, is_authenticated}
use codespace_operator.Auth.Laws.{logout_lem}
use codespace_operator.Auth.Tab.{
  me_request, heard, seen, Component, Tab, Event, mount, answered, unmount, sign_out, sign_in,
  at_place, without_place, see_answer, see_reply, leave_session, step, run,
}

-- No name is stored.
abbrev pub IsForgotten : World → Type 0
IsForgotten w = lookup user_key w.storage ≡ none

-- A reply that is no success, and a server that gives no other to the request for the user.
abbrev pub IsRefused : Result Response → Type 0
IsRefused (ok r) = is_ok r ≡ false
IsRefused (err m) = Unit

abbrev pub Refuses : Platform → Type 0
Refuses p = (sent : List Request) → IsRefused (received (p.answer sent (me_request p)))

abbrev IsRefusedLater : Option (Result Response) → Type 0
IsRefusedLater none = Unit
IsRefusedLater (some r) = IsRefused r

-- A component without a user, whose request under way, if any, will not give it one.
abbrev pub IsNobody : Component → Type 0
IsNobody c = (is_authenticated c.auth ≡ false) × IsRefusedLater c.awaited

-- Nobody is signed in.
pub record IsOut (t : Tab) : Type 0 where
  pub forgotten : IsForgotten t.world
  pub nobody : All IsNobody t.components

abbrev pub is_sign_in : Event → Bool
is_sign_in (sign_in i username password) = true
is_sign_in _ = false

bind_err :
    {A B : Type 0} (m : Exec A) (k : A → Exec B) (w : World) (message : String)
    → (m w).0 ≡ err message
    → (m >>= k) w ≡ (err message, (m w).1)
unfolding ◌>>=◌
bind_err m k w message h = ap (λ r. continue r k (m w).1) h

module _ (p : Platform) where
  handle-IsForgotten :
      (r : Response) (w : World) → IsForgotten w → IsForgotten (handle_response r w).1
  handle-IsForgotten r w h =
      let (_, stored, _, _) = handle_response_lem r w user_key in ground (arith, stored, h)

  heard_refused :
      (r : Result Response) (w : World)
      → IsRefused r
      → IsForgotten w
      → ((m : String) × ((heard p r w).0 ≡ err m)) × IsForgotten (heard p r w).1
  unfolding heard
  heard_refused (err m) w h f = ((m, refl), f)
  heard_refused (ok r) w h f =
      let thrown = (handle_response_lem r w user_key).0 ∙ rw h refl in
      rw (bind_err (handle_response r) (json p) w (friendly r) thrown)
        ((friendly r, refl), handle-IsForgotten r w f)

forget-IsForgotten :
    (b : Bool) (w : World) → IsForgotten w → IsForgotten (if b then forget_user w else w)
forget-IsForgotten true w h =
    ground (arith, lookup-without user_key user_key w.storage, eq_refl user_key)
forget-IsForgotten false w h = h

-- An act of a component that leaves it and the world signed out.
abbrev StaysOut : (Component → World → Component × World) → Type 0
StaysOut f =
    (c : Component) (w : World)
    → IsNobody c
    → IsForgotten w
    → IsNobody (f c w).0 × IsForgotten (f c w).1

at_place-IsOut :
    (f : Component → World → Component × World)
    → StaysOut f
    → (i : ℕ) (cs : List Component) (w : World) → All IsNobody cs
    → IsForgotten w
    → All IsNobody (at_place f i cs w).0 × IsForgotten (at_place f i cs w).1
unfolding at_place
at_place-IsOut f k i [] w h g = (tt, g)
at_place-IsOut f k zero (c ∷ cs) w h g = let (n, g') = k c w h.0 g in ((n, h.1), g')
at_place-IsOut f k (suc i) (c ∷ cs) w h g =
    let (n, g') = at_place-IsOut f k i cs w h.1 g in ((h.0, n), g')

without_place-IsOut :
    (i : ℕ) (cs : List Component) → All IsNobody cs → All IsNobody (without_place i cs)
unfolding without_place
without_place-IsOut i [] h = tt
without_place-IsOut zero (c ∷ cs) h = h.1
without_place-IsOut (suc i) (c ∷ cs) h = (h.0, without_place-IsOut i cs h.1)

initial-nobody :
    (stored : Option String) → stored ≡ none → is_authenticated (initial stored) ≡ false
unfolding is_authenticated initial truthy
initial-nobody stored e = rw e refl

module _ (p : Platform) (to_lower_case : String → String) where
  seen_refused :
      (r : Result Response) (a : Auth) (w : World)
      → IsRefused r
      → IsForgotten w
      → IsNobody (seen p to_lower_case r a w).0 × IsForgotten (seen p to_lower_case r a w).1
  unfolding seen restored is_authenticated truthy
  seen_refused r a w h f =
      let ((m, lost), stored) = heard_refused p r w h f in
      rw lost ((refl, tt), forget-IsForgotten _ (heard p r w).1 stored)

  see_reply-IsNobody :
      (reply : Option (Result Response)) (c : Component) (w : World)
      → IsRefusedLater reply
      → IsNobody c
      → IsForgotten w
      → IsNobody (see_reply p to_lower_case reply c w).0
        × IsForgotten (see_reply p to_lower_case reply c w).1
  unfolding see_reply
  see_reply-IsNobody none c w k n f = (n, f)
  see_reply-IsNobody (some r) c w k n f = seen_refused r c.auth w k f

  see_answer-StaysOut : StaysOut (see_answer p to_lower_case)
  see_answer-StaysOut c w n f = see_reply-IsNobody c.awaited c w n.1 n f

  leave_session-StaysOut : StaysOut (leave_session p to_lower_case)
  unfolding leave_session
  leave_session-StaysOut c w n f =
      let (out, _, forgotten) = logout_lem p to_lower_case c.auth w in ((out, n.1), forgotten)

  step-IsOut :
      (e : Event) (t : Tab)
      → Refuses p
      → is_sign_in e ≡ false
      → IsOut t
      → IsOut (step p to_lower_case e t)
  unfolding step
  step-IsOut mount t server k h = record {
    forgotten = unfold send in h.forgotten;
    nobody = (
      (
        initial-nobody (lookup user_key t.world.storage) h.forgotten,
        unfold send in server t.world.sent,
      ),
      h.nobody,
    );
  }
  step-IsOut (answered i) t server k h =
      let (n, f) =
        at_place-IsOut _ see_answer-StaysOut i t.components t.world h.nobody h.forgotten in
      record { forgotten = f; nobody = n }
  step-IsOut (unmount i) t server k h = record {
    forgotten = h.forgotten;
    nobody = without_place-IsOut i t.components h.nobody;
  }
  step-IsOut (sign_out i) t server k h =
      let (n, f) =
        at_place-IsOut _ leave_session-StaysOut i t.components t.world h.nobody h.forgotten in
      record { forgotten = f; nobody = n }
  step-IsOut (sign_in i username password) t server k h = cc k

  -- In a tab where nobody is signed in, and no reply to a request for the user that is under way is a
  -- success, nobody comes to be signed in: whatever the components do and in whatever order the
  -- replies come, as long as none of them signs in and the server refuses the request for the user.
  pub run-IsOut :
      (es : List Event) (t : Tab)
      → Refuses p
      → All (λ (e : Event). is_sign_in e ≡ false) es
      → IsOut t
      → IsOut (run p to_lower_case es t)
  unfolding run
  run-IsOut [] t server k h = h
  run-IsOut (e ∷ es) t server k h =
      run-IsOut es (step p to_lower_case e t) server k.1 (step-IsOut e t server k.0 h)
