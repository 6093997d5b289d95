-- ===== src/Client/Laws/Answers.antt =====
-- How the answers of the network show in localStorage and in the events sent to the window.
use Prim.Native.String.{◌++◌ as concat}
use codespace_operator.Prelude.{
  some, ◌&&◌, true, false, ◌<◌, ◌≤◌, ◌⊎◌, ◌∙◌, String, ◌≡◌, ◌≢◌, refl, ap, none, [], ◌∷◌, ◌++◌,
  lookup, lookup-without, if◌then◌else◌, eqb, arith, eq_iff, ◌==◌,
}
use codespace_operator.Js.Result.{ok, err}
use codespace_operator.Js.Json.{Json, str, get, present, truthy, stringify, to_text}
use codespace_operator.Js.Text.{show}
use codespace_operator.Client.{
  Init, api_fetch, handle_response, json, normalize_object, friendly, error_message, is_ok,
  user_key, auth_required,
}
use codespace_operator.Client.Calls
use codespace_operator.Client.Laws.Cookies.{
  Call, run, list, create, remove, scale, get_current_user, get_features, logout, session_info,
  local_login, introspect, introspect_user, introspect_server,
}
use codespace_operator.Client.Actions.{
  Request, Response, World, Platform, ◌>>=◌, send, remove_item, dispatch_event, Keeps, keeps_rules,
  Keeps-if, Keeps-throw, Keeps-bind,
}

-- An answer in 200..299 is passed on, any other is thrown as its message. With 401 the stored user
-- name is removed and the event is sent; every other key, and with every other status all of
-- localStorage and the events, stay as they were. No request is sent.
pub handle_response_lem :
    (r : Response) (w : World) (key : String)
    → ((handle_response r w).0 ≡ (if is_ok r then ok r else err (friendly r)))
      × (lookup key (handle_response r w).1.storage
          ≡ (if eqb r.status 401 && user_key == key then none else lookup key w.storage))
      × ((handle_response r w).1.signals
          ≡ (if eqb r.status 401 then w.signals ++ auth_required ∷ [] else w.signals))
      × ((handle_response r w).1.sent ≡ w.sent)
unfolding handle_response ◌>>=◌ remove_item dispatch_event
handle_response_lem r w key = (
  ground arith,
  ground (arith, lookup-without user_key key w.storage),
  ground arith,
  ground arith,
)

-- What a refused answer tells the user: the text under "error" of its body, else that under "message",
-- else the body itself; without a body that is JSON, the status.
pub data Tells : Response → String → Type 0 where
  by_error :
      (r : Response) (v : Json) (e : String)
      → r.body ≡ some v
      → get v "error" ≡ some (str e)
      → e ≢ ""
      → Tells r e
  by_message :
      (r : Response) (v : Json) (m : String)
      → r.body ≡ some v
      → get v "error" ≡ none
      → get v "message" ≡ some (str m)
      → m ≢ ""
      → Tells r m
  by_body :
      (r : Response) (v : Json)
      → r.body ≡ some v
      → get v "error" ≡ none
      → get v "message" ≡ none
      → stringify v ≢ ""
      → Tells r (stringify v)
  by_status :
      (r : Response)
      → r.body ≡ none
      → Tells r (concat "HTTP " (concat (show r.status) (concat ": " r.status_text)))

filled : (s : String) → s ≢ "" → truthy (str s) ≡ true
unfolding truthy
filled s shown = ground (arith, eq_iff s "", shown)

friendly_said : (r : Response) (s : String) → error_message r.body ≡ str s → s ≢ "" → friendly r ≡ s
unfolding friendly to_text
friendly_said r s e shown =
    ap
      (λ x.
        if truthy x
        then to_text x
        else concat "HTTP " (concat (show r.status) (concat ": " r.status_text)))
      e
    ∙ rw (filled s shown) refl

friendly-Tells : (r : Response) (m : String) → Tells r m → friendly r ≡ m
unfolding error_message present
friendly-Tells r m (by_error _ v _ body e shown) =
    friendly_said r m (rw (body, error_message, e) refl) shown
friendly-Tells r m (by_message _ v _ body e found shown) =
    friendly_said r m (rw (body, error_message, e, found, filled m shown) refl) shown
friendly-Tells r m (by_body _ v body e missing shown) =
    friendly_said r (stringify v) (rw (body, error_message, e, missing) refl) shown
friendly-Tells r m (by_status _ body) = unfold friendly truthy in rw body refl

-- An answer outside of 200..299 is thrown as the text that it tells, where it tells one: a text under
-- "error" of its body; without an "error" that under "message", and without both the body itself; the
-- status where there is no body in JSON. Empty texts are left out. With 401 the stored user name is
-- removed and the event is sent; every other key, and with every other status all of localStorage and
-- the events, stay as they were. No request is sent.
pub handle_response_refused :
    (r : Response) (w : World) (m key : String)
    → Tells r m
    → (r.status < 200) ⊎ (300 ≤ r.status)
    → ((handle_response r w).0 ≡ err m)
      × (lookup key (handle_response r w).1.storage
          ≡ (if eqb r.status 401 && user_key == key then none else lookup key w.storage))
      × ((handle_response r w).1.signals
          ≡ (if eqb r.status 401 then w.signals ++ auth_required ∷ [] else w.signals))
      × ((handle_response r w).1.sent ≡ w.sent)
handle_response_refused r w m key told outside =
    let (thrown, stored, told_window, sent) = handle_response_lem r w key in
    let refused : is_ok r ≡ false = ground (arith, outside) in
    (thrown ∙ rw (refused, friendly-Tells r m told) refl, stored, told_window, sent)

-- The other keys of localStorage hold what they held.
abbrev SameElsewhere : World → World → Type 0
SameElsewhere before w =
    (key : String) → key ≢ user_key → lookup key w.storage ≡ lookup key before.storage

module _ (p : Platform) (before : World) where
  send-Keeps : (req : Request) → Keeps (SameElsewhere before) (send p req)
  unfolding send
  send-Keeps req = record { at = λ w h. h }

  handle-Keeps : (r : Response) → Keeps (SameElsewhere before) (handle_response r)
  unfolding handle_response ◌>>=◌ remove_item dispatch_event
  handle-Keeps r = record {
    at = λ w h key n.
        ground (arith, h key n, lookup-without user_key key w.storage, eq_iff user_key key);
  }

  api_fetch-Keeps :
      (path : String) (init : Init) → Keeps (SameElsewhere before) (api_fetch p path init)
  unfolding api_fetch
  api_fetch-Keeps path init = Keeps-bind _ _ (send-Keeps _) handle-Keeps

  json-Keeps : (r : Response) → Keeps (SameElsewhere before) (json p r)
  unfolding json
  json-Keeps r = record { at = λ w h key n. ground (arith, h key n) }

  checked-Keeps :
      (label : String) (r : Response) → Keeps (SameElsewhere before) (Calls.checked_json p label r)
  unfolding Calls.checked_json
  checked-Keeps label r = Keeps-if _ _ _ (Keeps-throw _) (json-Keeps r)

  object-Keeps : (v : Json) → Keeps (SameElsewhere before) (normalize_object v)
  unfolding normalize_object
  object-Keeps v = record { at = λ w h key n. ground (arith, h key n) }

  list_answer-Keeps : (v : Json) → Keeps (SameElsewhere before) (Calls.list_answer p v)
  unfolding Calls.list_answer
  list_answer-Keeps v = record { at = λ w h key n. ground (arith, h key n) }

  ruleset storage_rules = (
    keeps_rules, send-Keeps, api_fetch-Keeps, json-Keeps, checked-Keeps, object-Keeps,
    list_answer-Keeps,
  )

  run-Keeps : (c : Call) → Keeps (SameElsewhere before) (run p c)
  unfolding run
  run-Keeps (list ns) = unfold Calls.list in search storage_rules
  run-Keeps (create body) = unfold Calls.create in search storage_rules
  run-Keeps (remove ns name) = unfold Calls.remove in search storage_rules
  run-Keeps (scale ns name replicas) = unfold Calls.scale in search storage_rules
  run-Keeps get_current_user = unfold Calls.get_current_user in search storage_rules
  run-Keeps get_features = unfold Calls.get_features in search storage_rules
  run-Keeps logout = unfold Calls.logout in search storage_rules
  run-Keeps session_info = unfold Calls.session_info in search storage_rules
  run-Keeps (local_login username password) = unfold Calls.local_login in search storage_rules
  run-Keeps (introspect o) = unfold Calls.introspect in search storage_rules
  run-Keeps (introspect_user o) = unfold Calls.introspect_user in search storage_rules
  run-Keeps (introspect_server discover) = unfold Calls.introspect_server in search storage_rules

-- No call of the client changes a key of localStorage other than the stored user name.
run-storage :
    (p : Platform) (c : Call) (w : World) (key : String)
    → key ≢ user_key
    → lookup key (run p c w).1.storage ≡ lookup key w.storage
run-storage p c w key n = (run-Keeps p w c).at w (λ k m. refl) key n
