-- ===== src/Client/Calls.antt =====
-- ui/src/api/client.ts: the operations of `api`, `userApi`, `authApi` and `introspectApi`.
use Prim.Native.String.{◌++◌}
use codespace_operator.Prelude.{
  String, Bool, true, false, not, ◌&&◌, ◌||◌, Option, none, some, List, [], ◌∷◌, ◌==◌, eqb,
  if◌then◌else◌, lookup,
}
use codespace_operator.Prelude.Int.{ℤ}
use codespace_operator.Js.Text.{show, join}
use codespace_operator.Js.Uri.{encode_uri_component, query_text}
use codespace_operator.Js.Json.{
  Json, null, num, str, arr, obj, Items, nil, cons, Fields, end, field, fields, get, truthy,
  present,
}
use codespace_operator.Client.{Init, is_ok, api_fetch, json, normalize_list, normalize_object}
use codespace_operator.Client.Actions.{
  Request, Response, Exec, Platform, pure, throw, ◌>>=◌, ◌>>◌, send,
}

abbrev pub no_init : Init
no_init = record { method = none; headers = none; body = none; credentials = none }

abbrev pub with_method : String → Init
with_method m = record no_init { method = some m }

abbrev pub json_post : Json → Init
json_post v = record {
  method = some "POST";
  headers = some (("Content-Type", "application/json") ∷ []);
  body = some v;
  credentials = none;
}

abbrev pub sessions_path : String
sessions_path = "/api/v1/server/sessions"

-- The query of `list` and of `watch`.
unfoldable pub namespace_query : String → String
namespace_query ns = if ns == "All" then "?all=true" else "?namespace=" ++ encode_uri_component ns

-- The path of one session.
unfoldable pub session_path : String → String → String
session_path ns name =
    sessions_path ++ "/" ++ encode_uri_component ns ++ "/" ++ encode_uri_component name

abbrev pub from_list : List Json → Items
from_list [] = nil
from_list (v ∷ vs) = cons v (from_list vs)

-- `data.items` is returned as it is if it is truthy; of null it is a TypeError.
unfoldable pub list_answer : Platform → Json → Exec Json
list_answer p null = throw p.null_error
list_answer p v = elim (present (get v "items")) [
  | some items ↦ pure items
  | none ↦ pure (arr (from_list (normalize_list v)))
]

unfoldable pub list : Platform → String → Exec Json
list p ns = do
  r ← api_fetch p (sessions_path ++ namespace_query ns) no_init
  v ← json p r
  list_answer p v

-- `key in body`
unfoldable pub has_key : String → Fields → Bool
has_key key fs = elim (lookup key (fields fs)) [ none ↦ false | some _ ↦ true ]

-- `v || other`
abbrev pub or_else : Option Json → Json → Json
or_else none other = other
or_else (some v) other = if truthy v then v else other

-- A property that is undefined is left out of the text.
abbrev pub optional : String → Option Json → Fields → Fields
optional key none rest = rest
optional key (some v) rest = field key v rest

-- `x?.key`
abbrev pub chain : Option Json → String → Option Json
chain none key = none
chain (some v) key = get v key

abbrev pub default_profile : Json
default_profile = obj (field "ide" (str "vscode") (field "image" (str "") end))

-- The request of `create`: a flat body as it is, or one built from `metadata` and `spec`.
unfoldable pub create_request : Fields → Fields
create_request body =
    let metadata = get (obj body) "metadata" in
    let spec = get (obj body) "spec" in
    let built = field "name" (or_else (chain metadata "name") (str "")) (
      field "namespace" (or_else (chain metadata "namespace") (str "default")) (
        field "profile" (or_else (chain spec "profile") default_profile) (
          optional "auth" (chain spec "auth") (
            optional "home" (chain spec "home") (
              optional "scratch" (chain spec "scratch") (
                optional "networking" (chain spec "networking")
                  (optional "replicas" (chain spec "replicas") end))))))) in
    if has_key "name" body && not (has_key "metadata" body) then body else built

unfoldable pub create : Platform → Fields → Exec Json
create p body = do
  r ← api_fetch p sessions_path (json_post (obj (create_request body)))
  v ← json p r
  normalize_object v

abbrev pub deleted : String → String → Json
deleted ns name =
    obj (field "status" (str "deleted") (field "name" (str name) (field "namespace" (str ns) end)))

abbrev pub is_zero_length : Option String → Bool
is_zero_length none = false
is_zero_length (some n) = n == "0"

unfoldable pub remove : Platform → String → String → Exec Json
remove p ns name = do
  r ← api_fetch p (session_path ns name) (with_method "DELETE")
  if is_zero_length r.content_length || eqb r.status 204 then pure (deleted ns name) else json p r

unfoldable pub scale : Platform → String → String → ℤ → Exec Json
scale p ns name replicas = do
  r ←
      api_fetch p (session_path ns name ++ "/scale")
        (json_post (obj (field "replicas" (num replicas) end)))
  v ← json p r
  normalize_object v

-- What `new EventSource(url, …)` is given.
pub record Stream : Type 0 where
  pub url : String
  pub with_credentials : Bool

unfoldable pub watch : Platform → String → Stream
watch p ns = record {
  url = p.base ++ "/api/v1/stream/sessions" ++ namespace_query ns;
  with_credentials = true;
}

unfoldable pub get_current_user : Platform → Exec Json
get_current_user p = do r ← api_fetch p "/api/v1/me" (with_method "GET"); json p r

-- `fetch` with the cookie and nothing else; `get_features`, `logout` and introspection call it.
abbrev pub plain_request : Platform → String → Request
plain_request p path = record {
  url = p.base ++ path;
  method = "GET";
  headers = [];
  body = none;
  credentials = "include";
}

unfoldable pub checked_json : Platform → String → Response → Exec Json
checked_json p label r = if not (is_ok r) then throw (label ++ show r.status) else json p r

unfoldable pub get_features : Platform → Exec Json
get_features p = do
  r ← send p (plain_request p "/auth/features")
  checked_json p "Failed to get auth features: " r

abbrev pub login_echo : String → Json
login_echo username = obj (field "user" (str username) (field "roles" (arr nil) end))

unfoldable pub local_login : Platform → String → String → Exec Json
local_login p username password = do
  r ←
      api_fetch p "/auth/login"
        (json_post (obj (field "username" (str username) (field "password" (str password) end))))
  if eqb r.status 204 then pure (login_echo username) else json p r

-- The answer is not looked at.
unfoldable pub logout : Platform → Exec (Unit {0})
logout p = do send p (plain_request p "/auth/logout"); pure tt

unfoldable pub session_info : Platform → Exec Json
session_info p = do r ← api_fetch p "/api/v1/user/session" (with_method "POST"); json p r

pub record Options : Type 0 where
  pub discover : Bool
  pub namespaces : List String
  pub roles : List String
  pub actions : List String

abbrev pub flag_param : Bool → List (String × String) → List (String × String)
flag_param true ps = ("discover", "1") ∷ ps
flag_param false ps = ps

-- `if (xs?.length) p.set(key, xs.join(","))`
abbrev pub list_param : String → List String → List (String × String) → List (String × String)
list_param key [] ps = ps
list_param key (x ∷ xs) ps = (key, join "," (x ∷ xs)) ∷ ps

unfoldable pub introspect : Platform → Options → Exec Json
introspect p o = do
  let params = flag_param o.discover (
      list_param "namespaces" o.namespaces
        (list_param "roles" o.roles (list_param "actions" o.actions [])))
  r ← send p (plain_request p ("/api/v1/introspect?" ++ query_text params))
  checked_json p "introspect failed: " r

unfoldable pub introspect_user : Platform → Options → Exec Json
introspect_user p o = do
  let params =
      list_param "namespaces" o.namespaces
        (list_param "actions" o.actions (flag_param o.discover []))
  r ← send p (plain_request p ("/api/v1/introspect/user?" ++ query_text params))
  checked_json p "user introspect failed: " r

abbrev pub no_permission : String
no_permission = "Insufficient permissions to view server information"

unfoldable pub introspect_server : Platform → Bool → Exec Json
introspect_server p discover = do
  r ← send p (plain_request p ("/api/v1/introspect/server?" ++ query_text (flag_param discover [])))
  if eqb r.status 403 then throw no_permission else checked_json p "server introspect failed: " r
