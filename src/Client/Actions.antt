-- ===== src/Client/Actions.antt =====
-- Actions of the API client: they may throw, and they change the world. What was changed before a
-- throw stays changed.
use codespace_operator.Prelude.{
  ℕ, String, Option, List, ◌∷◌, [], ◌++◌, without, Bool, true, false, if◌then◌else◌,
}
use codespace_operator.Js.Result.{Result, ok, err}
use codespace_operator.Js.Json.{Json}

pub record Request : Type 0 where
  pub url : String
  pub method : String
  pub headers : List (String × String)
  pub body : Option Json
  pub credentials : String

-- `body` is none where the body is no JSON.
pub record Response : Type 0 where
  pub status : ℕ
  pub status_text : String
  pub content_length : Option String
  pub body : Option Json

-- `fetch` resolves, or rejects with a message.
pub data Reply : Type 0 where
  response : Response → Reply
  failed : String → Reply

-- What the code cannot see: the base of the build, the network, which may answer by all that it was
-- asked before, and the messages of the engine's own errors.
pub record Platform : Type 0 where
  pub base : String
  pub answer : List Request → Request → Reply
  pub syntax_error : String
  pub null_error : String

pub record World : Type 0 where
  pub storage : List (String × String)
  pub signals : List String
  pub sent : List Request

abbrev pub Exec : Type 0 → Type 0
Exec A = World → Result A × World

abbrev pub pure : {A : Type 0} → A → Exec A
pure a w = (ok a, w)

abbrev pub throw : {A : Type 0} → String → Exec A
throw message w = (err message, w)

abbrev pub continue : {A B : Type 0} → Result A → (A → Exec B) → Exec B
continue (ok a) f w = f a w
continue (err e) f w = (err e, w)

infixl 5 ◌>>=◌ ◌>>◌
unfoldable pub ◌>>=◌ : {A B : Type 0} → Exec A → (A → Exec B) → Exec B
◌>>=◌ m f w = let (r, w') = m w in continue r f w'

abbrev pub ◌>>◌ : {A B : Type 0} → Exec A → Exec B → Exec B
m >> k = m >>= λ _. k

-- `localStorage.removeItem(key)`
unfoldable pub remove_item : String → Exec (Unit {0})
remove_item key w = (ok tt, record w { storage = without key w.storage })

-- `window.dispatchEvent(new CustomEvent(name))`
unfoldable pub dispatch_event : String → Exec (Unit {0})
dispatch_event name w = (ok tt, record w { signals = w.signals ++ name ∷ [] })

abbrev pub received : Reply → Result Response
received (response r) = ok r
received (failed message) = err message

-- `fetch`
unfoldable pub send : Platform → Request → Exec Response
send p req w = (received (p.answer w.sent req), record w { sent = w.sent ++ req ∷ [] })

-- `m` keeps `P`, whether it returns or throws.
pub record Keeps {A : Type 0} (P : World → Type 0) (m : Exec A) : Type 0 where
  pub at : (w : World) → P w → P (m w).1

module _ {A : Type 0} {P : World → Type 0} where
  pub Keeps-pure : (a : A) → Keeps P (pure a)
  Keeps-pure a = record { at = λ w h. h }

  pub Keeps-throw : (message : String) → Keeps P (throw {A = A} message)
  Keeps-throw message = record { at = λ w h. h }

  pub Keeps-if : (b : Bool) (m n : Exec A) → Keeps P m → Keeps P n → Keeps P (if b then m else n)
  Keeps-if true m n km kn = km
  Keeps-if false m n km kn = kn

module _ {A B : Type 0} {P : World → Type 0} where
  Keeps-continue :
      (r : Result A) (f : A → Exec B) → ((a : A) → Keeps P (f a)) → Keeps P (continue r f)
  Keeps-continue (ok a) f kf = record { at = (kf a).at }
  Keeps-continue (err e) f kf = record { at = λ w h. h }

  pub Keeps-bind :
      (m : Exec A) (f : A → Exec B) → Keeps P m → ((a : A) → Keeps P (f a)) → Keeps P (m >>= f)
  unfolding ◌>>=◌
  Keeps-bind m f km kf = record {
    at = λ w h. let (r, w') = m w in (Keeps-continue r f kf).at w' (km.at w h);
  }

pub ruleset keeps_rules = (Keeps-pure, Keeps-throw, Keeps-if, Keeps-bind)
