-- ===== src/Client/Laws/Requests.antt =====
-- The request of each call, and what it takes for the call to return.
use Prim.Native.String.{◌++◌ as concat}
use codespace_operator.Prelude.{
  String, ◌≡◌, refl, ◌∙◌, ap, sym, Bool, true, false, List, [], ◌∷◌, ◌++◌, arith, eqb,
  if◌then◌else◌,
}
use codespace_operator.Js.Json.{Json, obj, field, end, num, str}
use codespace_operator.Js.Result.{ok}
use codespace_operator.Js.Uri.{query_text}
use codespace_operator.Client.{is_ok, api_request}
use codespace_operator.Client.Actions.{
  Request, Response, response, Platform, World, throw, Keeps, Keeps-if, Keeps-throw,
}
use codespace_operator.Client.Calls
use codespace_operator.Client.Laws.Cookies.{
  Call, list, create, remove, scale, get_current_user, get_features, local_login, logout,
  session_info, introspect, introspect_user, introspect_server, run,
}
use codespace_operator.Client.Laws.Single.{HasSent, checked-Keeps, quiet_rules}
use codespace_operator.Client.Laws.Served.{
  Served, IsOk, Served-bind, Served-send, api_fetch-Served, checked-Served,
}

-- The query of the combined introspection, and that of the user's.
abbrev pub all_params : Calls.Options → List (String × String)
all_params o = Calls.flag_param o.discover (
    Calls.list_param "namespaces" o.namespaces
      (Calls.list_param "roles" o.roles (Calls.list_param "actions" o.actions [])))

abbrev pub user_params : Calls.Options → List (String × String)
user_params o =
    Calls.list_param "namespaces" o.namespaces
      (Calls.list_param "actions" o.actions (Calls.flag_param o.discover []))

-- What a call asks the server for.
unfoldable pub request_of : Platform → Call → Request
request_of p (list ns) =
    api_request p.base (concat Calls.sessions_path (Calls.namespace_query ns)) Calls.no_init
request_of p (create body) =
    api_request p.base Calls.sessions_path (Calls.json_post (obj (Calls.create_request body)))
request_of p (remove ns name) =
    api_request p.base (Calls.session_path ns name) (Calls.with_method "DELETE")
request_of p (scale ns name replicas) =
    api_request p.base (concat (Calls.session_path ns name) "/scale")
      (Calls.json_post (obj (field "replicas" (num replicas) end)))
request_of p get_current_user = api_request p.base "/api/v1/me" (Calls.with_method "GET")
request_of p get_features = Calls.plain_request p "/auth/features"
request_of p logout = Calls.plain_request p "/auth/logout"
request_of p session_info = api_request p.base "/api/v1/user/session" (Calls.with_method "POST")
request_of p (local_login username password) =
    api_request p.base "/auth/login" (
      Calls.json_post (obj (field "username" (str username) (field "password" (str password) end))))
request_of p (introspect o) =
    Calls.plain_request p (concat "/api/v1/introspect?" (query_text (all_params o)))
request_of p (introspect_user o) =
    Calls.plain_request p (concat "/api/v1/introspect/user?" (query_text (user_params o)))
request_of p (introspect_server discover) =
    Calls.plain_request p
      (concat "/api/v1/introspect/server?" (query_text (Calls.flag_param discover [])))

-- The calls that look at the answer, which is every one but `logout`.
unfoldable pub is_checked : Call → Bool
is_checked logout = false
is_checked _ = true

module _ (p : Platform) where
  abbrev Asks : Call → Request → Type 0
  Asks c req = req ≡ request_of p c

  server_answer-Keeps :
      (s : List Request) (r : Response)
      → Keeps (HasSent s) (
          if eqb r.status 403
          then throw Calls.no_permission
          else Calls.checked_json p "server introspect failed: " r)
  server_answer-Keeps s r = Keeps-if _ _ _ (Keeps-throw _) (checked-Keeps p s _ r)

  server_answer_ok :
      (r : Response) (w : World) (v : Json)
      → ((if eqb r.status 403
            then throw Calls.no_permission
            else Calls.checked_json p "server introspect failed: " r)
          w).0
        ≡ ok v
      → is_ok r ≡ true
  unfolding Calls.checked_json
  server_answer_ok r w v h = ground arith

  run-Served : (c : Call) → is_checked c ≡ true → Served p (Asks c) IsOk (run p c)
  unfolding run request_of
  run-Served (list ns) h =
      unfold Calls.list in
      Served-bind _ _ (api_fetch-Served p _ _ _ refl) (λ s r. search quiet_rules)
  run-Served (create body) h =
      unfold Calls.create in
      Served-bind _ _ (api_fetch-Served p _ _ _ refl) (λ s r. search quiet_rules)
  run-Served (remove ns name) h =
      unfold Calls.remove in
      Served-bind _ _ (api_fetch-Served p _ _ _ refl) (λ s r. search quiet_rules)
  run-Served (scale ns name replicas) h =
      unfold Calls.scale in
      Served-bind _ _ (api_fetch-Served p _ _ _ refl) (λ s r. search quiet_rules)
  run-Served get_current_user h =
      unfold Calls.get_current_user in
      Served-bind _ _ (api_fetch-Served p _ _ _ refl) (λ s r. search quiet_rules)
  run-Served get_features h = unfold Calls.get_features in checked-Served p _ _ _ refl
  run-Served logout h = unfold is_checked in cc h
  run-Served session_info h =
      unfold Calls.session_info in
      Served-bind _ _ (api_fetch-Served p _ _ _ refl) (λ s r. search quiet_rules)
  run-Served (local_login username password) h =
      unfold Calls.local_login in
      Served-bind _ _ (api_fetch-Served p _ _ _ refl) (λ s r. search quiet_rules)
  run-Served (introspect o) h = unfold Calls.introspect in checked-Served p _ _ _ refl
  run-Served (introspect_user o) h = unfold Calls.introspect_user in checked-Served p _ _ _ refl
  run-Served (introspect_server discover) h =
      unfold Calls.introspect_server in Served-send _ _ refl server_answer-Keeps server_answer_ok

  logout-Served : Served p (Asks logout) (λ r. Unit {0}) (run p logout)
  unfolding run Calls.logout request_of
  logout-Served =
      Served-bind _ _ (Served-send _ _ refl (λ s r. search quiet_rules) (λ r w v h. tt))
        (λ s v. search quiet_rules)

  sent_of_Served :
      (R : Response → Type 0) (c : Call) (w : World)
      → Served p (Asks c) R (run p c)
      → (run p c w).1.sent ≡ w.sent ++ request_of p c ∷ []
  sent_of_Served R c w served =
      let (req, asked, e, _) = served.at w in e ∙ ap (λ r. w.sent ++ r ∷ []) asked

-- Every call sends exactly its request, whatever is answered.
pub run_sends :
    (p : Platform) (c : Call) (w : World) → (run p c w).1.sent ≡ w.sent ++ request_of p c ∷ []
run_sends p logout w = sent_of_Served p _ logout w (logout-Served p)
run_sends p c w = sent_of_Served p _ c w (run-Served p c (unfold is_checked in refl))

-- A call returns only if the server has answered its request with a status in 200..299. This holds of
-- every call but `logout`, which does not look at the answer.
pub run_returned :
    (p : Platform) (c : Call) (w : World) (v : Json)
    → is_checked c ≡ true
    → (run p c w).0 ≡ ok v
    → (r : Response) × (p.answer w.sent (request_of p c) ≡ response r) × (is_ok r ≡ true)
run_returned p c w v checked returned =
    let (req, asked, _, back) = (run-Served p c checked).at w in
    let (r, e, good) = back v returned in (r, ap (p.answer w.sent) (sym asked) ∙ e, good)
