-- ===== src/Client/Laws/Served.antt =====
-- What a call of the client asks for, and what it takes to return.
use codespace_operator.Prelude.{String, ◌≡◌, refl, ◌∙◌, true, List, [], ◌∷◌, ◌++◌, arith}
use codespace_operator.Js.Json.{Json}
use codespace_operator.Js.Result.{Result, ok, err}
use codespace_operator.Client.{Init, is_ok, handle_response, api_request, api_fetch}
use codespace_operator.Client.Actions.{
  Request, Response, Reply, response, failed, Platform, World, Exec, continue, ◌>>=◌, remove_item,
  dispatch_event, send, received, Keeps,
}
use codespace_operator.Client.Calls
use codespace_operator.Client.Laws.Single.{HasSent, handle-Keeps, checked-Keeps, continue_sent}

-- One request, of which `Q` holds; if the call returns, the answer was a response of which `R` holds.
pub record Served (p : Platform) (Q : Request → Type 0) (R : Response → Type 0) {A : Type 0}
    (m : Exec A) : Type 0 where
  pub at :
      (w : World)
      → (req : Request) × Q req
        × ((m w).1.sent ≡ w.sent ++ req ∷ [])
        × ((a : A) → (m w).0 ≡ ok a → (r : Response) × (p.answer w.sent req ≡ response r) × R r)

pub continue_ok :
    {A B : Type 0} (r : Result A) (f : A → Exec B) (w : World) (b : B)
    → (continue r f w).0 ≡ ok b
    → (a : A) × (r ≡ ok a) × ((f a w).0 ≡ ok b)
continue_ok (ok a) f w b h = (a, refl, h)
continue_ok (err e) f w b h = cc

pub received_ok : (reply : Reply) (r : Response) → received reply ≡ ok r → reply ≡ response r
received_ok (response r) s h = cc
received_ok (failed message) s h = cc

module _ {p : Platform} {Q : Request → Type 0} {R : Response → Type 0} where
  pub Served-bind :
      {A B : Type 0} (m : Exec A) (f : A → Exec B)
      → Served p Q R m
      → ((s : List Request) (a : A) → Keeps (HasSent s) (f a))
      → Served p Q R (m >>= f)
  unfolding ◌>>=◌
  Served-bind m f served quiet = record {
    at = λ w.
        let (req, asked, e, back) = served.at w in
        (
          req,
          asked,
          continue_sent (m w).0 f (m w).1 (quiet (m w).1.sent) ∙ e,
          λ b h. let (a, same, _) = continue_ok (m w).0 f (m w).1 b h in back a same,
        );
  }

  pub Served-send :
      {B : Type 0} (req : Request) (f : Response → Exec B)
      → Q req
      → ((s : List Request) (r : Response) → Keeps (HasSent s) (f r))
      → ((r : Response) (w : World) (b : B) → (f r w).0 ≡ ok b → R r)
      → Served p Q R (send p req >>= f)
  unfolding ◌>>=◌ send
  Served-send req f asked quiet good = record {
    at = λ w.
        let w' : World = record w { sent = w.sent ++ req ∷ [] } in
        (
          req,
          asked,
          continue_sent (received (p.answer w.sent req)) f w' (quiet w'.sent),
          λ b h.
              let (r, same, h') = continue_ok (received (p.answer w.sent req)) f w' b h in
              (r, received_ok (p.answer w.sent req) r same, good r w' b h'),
        );
  }

handle_ok :
    (r : Response) (w : World) (a : Response) → (handle_response r w).0 ≡ ok a → is_ok r ≡ true
unfolding handle_response ◌>>=◌ remove_item dispatch_event
handle_ok r w a h = ground arith

checked_ok :
    (p : Platform) (label : String) (r : Response) (w : World) (v : Json)
    → (Calls.checked_json p label r w).0 ≡ ok v
    → is_ok r ≡ true
unfolding Calls.checked_json
checked_ok p label r w v h = ground arith

-- A response in 200..299.
abbrev pub IsOk : Response → Type 0
IsOk r = is_ok r ≡ true

module _ (p : Platform) (Q : Request → Type 0) where
  pub api_fetch-Served :
      (path : String) (init : Init)
      → Q (api_request p.base path init)
      → Served p Q IsOk (api_fetch p path init)
  unfolding api_fetch
  api_fetch-Served path init asked = Served-send _ _ asked (λ s r. handle-Keeps p s r) handle_ok

  pub checked-Served :
      (path label : String)
      → Q (Calls.plain_request p path)
      → Served p Q IsOk (send p (Calls.plain_request p path) >>= Calls.checked_json p label)
  checked-Served path label asked =
      Served-send _ _ asked (λ s r. checked-Keeps p s label r)
        (λ r w v h. checked_ok p label r w v h)
