-- ===== src/Client/Laws/Single.antt =====
-- How many requests a call of the client sends.
use codespace_operator.Prelude.{String, ◌≡◌, refl, ◌∙◌, List, [], ◌∷◌, ◌++◌, arith}
use codespace_operator.Js.Json.{Json}
use codespace_operator.Js.Result.{Result, ok, err}
use codespace_operator.Client.{Init, handle_response, api_fetch, json, normalize_object}
use codespace_operator.Client.Actions.{
  Request, Response, Platform, World, Exec, continue, ◌>>=◌, remove_item, dispatch_event, send,
  Keeps, Keeps-throw, Keeps-if, keeps_rules,
}
use codespace_operator.Client.Calls
use codespace_operator.Client.Laws.Cookies.{
  Call, list, create, remove, scale, get_current_user, get_features, local_login, logout,
  session_info, introspect, introspect_user, introspect_server, run,
}

abbrev pub HasSent : List Request → World → Type 0
HasSent s w = w.sent ≡ s

-- One request, whether the call returns or throws.
record SendsOne {A : Type 0} (m : Exec A) : Type 0 where
  pub at : (w : World) → (req : Request) × ((m w).1.sent ≡ w.sent ++ req ∷ [])

module _ (p : Platform) (s : List Request) where
  pub handle-Keeps : (r : Response) → Keeps (HasSent s) (handle_response r)
  unfolding handle_response ◌>>=◌ remove_item dispatch_event
  handle-Keeps r = record { at = λ w h. ground (arith, h) }

  pub json-Keeps : (r : Response) → Keeps (HasSent s) (json p r)
  unfolding json
  json-Keeps r = record { at = λ w h. ground (arith, h) }

  pub checked-Keeps :
      (label : String) (r : Response) → Keeps (HasSent s) (Calls.checked_json p label r)
  unfolding Calls.checked_json
  checked-Keeps label r = Keeps-if _ _ _ (Keeps-throw _) (json-Keeps r)

  pub object-Keeps : (v : Json) → Keeps (HasSent s) (normalize_object v)
  unfolding normalize_object
  object-Keeps v = record { at = λ w h. ground (arith, h) }

  pub list_answer-Keeps : (v : Json) → Keeps (HasSent s) (Calls.list_answer p v)
  unfolding Calls.list_answer
  list_answer-Keeps v = record { at = λ w h. ground (arith, h) }

-- What sends nothing.
pub ruleset quiet_rules =
    (keeps_rules, handle-Keeps, json-Keeps, checked-Keeps, object-Keeps, list_answer-Keeps)

module _ {A B : Type 0} where
  pub continue_sent :
      (r : Result A) (f : A → Exec B) (w : World)
      → ((a : A) → Keeps (HasSent w.sent) (f a))
      → (continue r f w).1.sent ≡ w.sent
  continue_sent (ok a) f w k = (k a).at w refl
  continue_sent (err e) f w k = refl

  SendsOne-bind :
      (m : Exec A) (f : A → Exec B)
      → SendsOne m
      → ((s : List Request) (a : A) → Keeps (HasSent s) (f a))
      → SendsOne (m >>= f)
  unfolding ◌>>=◌
  SendsOne-bind m f one k = record {
    at =
        λ w. let (req, e) = one.at w in (req, continue_sent (m w).0 f (m w).1 (k (m w).1.sent) ∙ e);
  }

module _ (p : Platform) where
  send-SendsOne : (req : Request) → SendsOne (send p req)
  unfolding send
  send-SendsOne req = record { at = λ w. (req, refl) }

  api_fetch-SendsOne : (path : String) (init : Init) → SendsOne (api_fetch p path init)
  unfolding api_fetch
  api_fetch-SendsOne path init = SendsOne-bind _ _ (send-SendsOne _) (λ s r. handle-Keeps p s r)

  ruleset single_rules = (quiet_rules, SendsOne-bind, send-SendsOne, api_fetch-SendsOne)

  SendsOne-run : (c : Call) → SendsOne (run p c)
  unfolding run
  SendsOne-run (list ns) = unfold Calls.list in search single_rules
  SendsOne-run (create body) = unfold Calls.create in search single_rules
  SendsOne-run (remove ns name) = unfold Calls.remove in search single_rules
  SendsOne-run (scale ns name replicas) = unfold Calls.scale in search single_rules
  SendsOne-run get_current_user = unfold Calls.get_current_user in search single_rules
  SendsOne-run get_features = unfold Calls.get_features in search single_rules
  SendsOne-run logout = unfold Calls.logout in search single_rules
  SendsOne-run session_info = unfold Calls.session_info in search single_rules
  SendsOne-run (local_login username password) = unfold Calls.local_login in search single_rules
  SendsOne-run (introspect o) = unfold Calls.introspect in search single_rules
  SendsOne-run (introspect_user o) = unfold Calls.introspect_user in search single_rules
  SendsOne-run (introspect_server discover) = unfold Calls.introspect_server in search single_rules

-- Every call of the client sends exactly one request, whatever is answered: none is repeated, and none
-- is left out.
one_request :
    (p : Platform) (c : Call) (w : World)
    → (req : Request) × ((run p c w).1.sent ≡ w.sent ++ req ∷ [])
one_request p c w = (SendsOne-run p c).at w
