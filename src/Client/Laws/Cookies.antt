-- ===== src/Client/Laws/Cookies.antt =====
-- Every request relies on the cookie: credentials are included, and no Authorization header is sent.
use Prim.Native.String.{◌++◌ as concat}
use codespace_operator.Prelude.{
  String, ◌≡◌, refl, Bool, none, List, [], ◌∷◌, ◌++◌, lookup, All, arith, insert,
}
use codespace_operator.Prelude.Int.{ℤ}
use codespace_operator.Js.Json.{Json, Fields, arr, nil}
use codespace_operator.Client.{
  Init, spread, or_none, api_request, api_fetch, handle_response, json, normalize_object,
}
use codespace_operator.Client.Calls
use codespace_operator.Client.Actions.{
  Request, Response, World, Exec, Platform, pure, ◌>>=◌, send, remove_item, dispatch_event, Keeps,
  keeps_rules, Keeps-bind, Keeps-throw, Keeps-if,
}

-- The operations, with their arguments.
pub data Call : Type 0 where
  list : String → Call
  create : Fields → Call
  remove : String → String → Call
  scale : String → String → ℤ → Call
  get_current_user get_features logout session_info : Call
  local_login : String → String → Call
  introspect introspect_user : Calls.Options → Call
  introspect_server : Bool → Call

unfoldable pub run : Platform → Call → Exec Json
run p (list ns) = Calls.list p ns
run p (create body) = Calls.create p body
run p (remove ns name) = Calls.remove p ns name
run p (scale ns name replicas) = Calls.scale p ns name replicas
run p get_current_user = Calls.get_current_user p
run p get_features = Calls.get_features p
run p logout = Calls.logout p >>= λ _. pure (arr nil)
run p session_info = Calls.session_info p
run p (local_login username password) = Calls.local_login p username password
run p (introspect o) = Calls.introspect p o
run p (introspect_user o) = Calls.introspect_user p o
run p (introspect_server discover) = Calls.introspect_server p discover

pub record IsCookieOnly (p : Platform) (req : Request) : Type 0 where
  pub credentials : req.credentials ≡ "include"
  pub no_token : lookup "Authorization" req.headers ≡ none
  pub to_base : (path : String) × (req.url ≡ concat p.base path)

abbrev pub AllCookieOnly : Platform → World → Type 0
AllCookieOnly p w = All (IsCookieOnly p) w.sent

All-snoc :
    {A : Type 0} (P : A → Type 0) (xs : List A) (x : A) → All P xs → P x → All P (xs ++ x ∷ [])
All-snoc P [] x h k = (k, tt)
All-snoc P (y ∷ ys) x h k = (h.0, All-snoc P ys x h.1 k)

module _ (p : Platform) where
  send-Keeps : (req : Request) → IsCookieOnly p req → Keeps (AllCookieOnly p) (send p req)
  unfolding send
  send-Keeps req ok = record { at = λ w h. All-snoc (IsCookieOnly p) w.sent req h ok }

  handle-Keeps : (r : Response) → Keeps (AllCookieOnly p) (handle_response r)
  unfolding handle_response ◌>>=◌ remove_item dispatch_event
  handle-Keeps r = record { at = λ w h. ground arith }

  api_request-IsCookieOnly :
      (path : String) (init : Init)
      → lookup "Authorization" (spread (("Accept", "application/json") ∷ []) (or_none init.headers))
        ≡ none
      → IsCookieOnly p (api_request p.base path init)
  unfolding api_request
  api_request-IsCookieOnly path init h = record {
    credentials = refl;
    no_token = h;
    to_base = (path, refl);
  }

  api_fetch-Keeps :
      (path : String) (init : Init)
      → lookup "Authorization" (spread (("Accept", "application/json") ∷ []) (or_none init.headers))
        ≡ none
      → Keeps (AllCookieOnly p) (api_fetch p path init)
  unfolding api_fetch
  api_fetch-Keeps path init h =
      Keeps-bind _ _ (send-Keeps _ (api_request-IsCookieOnly path init h)) handle-Keeps

  plain-Keeps : (path : String) → Keeps (AllCookieOnly p) (send p (Calls.plain_request p path))
  plain-Keeps path =
      send-Keeps _
        (record { credentials = refl; no_token = (unfold lookup in refl); to_base = (path, refl) })

  json-Keeps : (r : Response) → Keeps (AllCookieOnly p) (json p r)
  unfolding json
  json-Keeps r = record { at = λ w h. ground arith }

  checked-Keeps :
      (label : String) (r : Response) → Keeps (AllCookieOnly p) (Calls.checked_json p label r)
  unfolding Calls.checked_json
  checked-Keeps label r = Keeps-if _ _ _ (Keeps-throw _) (json-Keeps r)

  object-Keeps : (v : Json) → Keeps (AllCookieOnly p) (normalize_object v)
  unfolding normalize_object
  object-Keeps v = record { at = λ w h. ground arith }

  list_answer-Keeps : (v : Json) → Keeps (AllCookieOnly p) (Calls.list_answer p v)
  unfolding Calls.list_answer
  list_answer-Keeps v = record { at = λ w h. ground arith }

  accept_only : lookup {V = String} "Authorization" (("Accept", "application/json") ∷ []) ≡ none
  unfolding lookup
  accept_only = refl

  json_only :
      lookup "Authorization"
        (spread (("Accept", "application/json") ∷ []) (("Content-Type", "application/json") ∷ []))
      ≡ none
  unfolding lookup insert
  json_only = refl

  ruleset cookie_rules = (
    keeps_rules, api_fetch-Keeps, plain-Keeps, json-Keeps, checked-Keeps, object-Keeps,
    list_answer-Keeps, accept_only, json_only,
  )

-- Whatever the call and the answers of the network, every request of the client goes to the base
-- of the build with credentials included and with no Authorization header, if all before it did.
pub run-IsCookieOnly :
    (p : Platform) (c : Call) (w : World) → AllCookieOnly p w → AllCookieOnly p (run p c w).1
unfolding run
run-IsCookieOnly p c w h = (run-Keeps c).at w h
  where
    run-Keeps : (d : Call) → Keeps (AllCookieOnly p) (run p d)
    run-Keeps (list ns) = unfold Calls.list in search cookie_rules
    run-Keeps (create body) = unfold Calls.create in search cookie_rules
    run-Keeps (remove ns name) = unfold Calls.remove in search cookie_rules
    run-Keeps (scale ns name replicas) = unfold Calls.scale in search cookie_rules
    run-Keeps get_current_user = unfold Calls.get_current_user in search cookie_rules
    run-Keeps get_features = unfold Calls.get_features in search cookie_rules
    run-Keeps logout = unfold Calls.logout in search cookie_rules
    run-Keeps session_info = unfold Calls.session_info in search cookie_rules
    run-Keeps (local_login username password) = unfold Calls.local_login in search cookie_rules
    run-Keeps (introspect o) = unfold Calls.introspect in search cookie_rules
    run-Keeps (introspect_user o) = unfold Calls.introspect_user in search cookie_rules
    run-Keeps (introspect_server discover) = unfold Calls.introspect_server in search cookie_rules
