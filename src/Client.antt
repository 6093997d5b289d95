-- ===== src/Client.antt =====
-- ui/src/api/client.ts: the request layer, `apiFetch` and `handleResponse`, and the shapes of answers
-- that are normalised. An action may throw, and changes the world: localStorage, the events sent to
-- the window, and the requests sent so far. The network is a parameter.
pub mod Actions
pub mod Calls
pub mod Laws
use Prim.Native.String.{◌++◌}
use codespace_operator.Prelude.{
  ℕ, String, Bool, true, false, not, ◌&&◌, ◌||◌, Option, none, some, List, [], ◌∷◌, ◌==◌, leb, ltb,
  eqb, if◌then◌else◌, lookup, without, insert,
}
use codespace_operator.Js.Result.{Result, ok, err}
use codespace_operator.Js.Text.{show}
use codespace_operator.Js.Json.{
  Json, null, bool, num, str, arr, obj, Items, nil, cons, elements, get, truthy, present, stringify,
  to_text,
}
use codespace_operator.Client.Actions.{
  Request, Response, Reply, response, failed, World, Exec, pure, throw, ◌>>=◌, ◌>>◌, remove_item,
  dispatch_event, send, Platform,
}

-- The options that `apiFetch` is given.
pub record Init : Type 0 where
  pub method : Option String
  pub headers : Option (List (String × String))
  pub body : Option Json
  pub credentials : Option String

-- `response.ok`
abbrev pub is_ok : Response → Bool
is_ok r = leb 200 r.status && ltb r.status 300

-- What `handleResponse` finds to say in the body, if it is JSON.
unfoldable pub error_message : Option Json → Json
error_message none = str ""
error_message (some v) =
    let other : Json = elim (present (get v "message")) [ some m ↦ m | none ↦ str (stringify v) ] in
    elim (get v "error") [ some (str e) ↦ str e | _ ↦ other ]

unfoldable pub friendly : Response → String
friendly r =
    let message = error_message r.body in
    if truthy message then to_text message else "HTTP " ++ show r.status ++ ": " ++ r.status_text

abbrev pub user_key : String
user_key = "co_user"

abbrev pub auth_required : String
auth_required = "co:auth:required"

unfoldable pub handle_response : Response → Exec Response
handle_response r =
    if is_ok r
    then pure r
    else if eqb r.status 401
    then (do remove_item user_key; dispatch_event auth_required; throw (friendly r))
    else throw (friendly r)

-- `{ ...m, ...n }`
abbrev pub spread : List (String × String) → List (String × String) → List (String × String)
spread m [] = m
spread m ((k, v) ∷ n) = spread (insert k v m) n

abbrev or_none : Option (List (String × String)) → List (String × String)
or_none none = []
or_none (some h) = h

abbrev or_get : Option String → String
or_get none = "GET"
or_get (some m) = m

-- The request of `apiFetch`; `credentials` comes last and wins.
unfoldable pub api_request : String → String → Init → Request
api_request base path init = record {
  url = base ++ path;
  method = or_get init.method;
  headers = spread (("Accept", "application/json") ∷ []) (or_none init.headers);
  body = init.body;
  credentials = "include";
}

unfoldable pub api_fetch : Platform → String → Init → Exec Response
api_fetch p path init = do res ← send p (api_request p.base path init); handle_response res

-- `r.json()`
unfoldable pub json : Platform → Response → Exec Json
json p r = elim r.body [ none ↦ throw p.syntax_error | some v ↦ pure v ]

-- `Array.isArray(x)`
abbrev pub array : Option Json → Option (List Json)
array (some (arr vs)) = some (elements vs)
array _ = none

-- `x.data && Array.isArray(x.data.items)`
unfoldable pub nested : Option Json → List Json
nested none = []
nested (some v) =
    let found : List Json = elim (array (get v "items")) [ some vs ↦ vs | none ↦ [] ] in
    if truthy v then found else []

unfoldable pub normalize_list : Json → List Json
normalize_list x =
    let inner : List Json = elim (array (get x "items")) [
      | some vs ↦ vs
      | none ↦ nested (get x "data")
    ] in
    let shaped : List Json = elim (array (some x)) [ some vs ↦ vs | none ↦ inner ] in
    if truthy x then shaped else []

unfoldable pub normalize_object : Json → Exec Json
normalize_object x =
    let whole : Exec Json = elim (present (get x "object")) [ some o ↦ pure o | none ↦ pure x ] in
    if truthy x then whole else throw "empty response"
