-- ===== src/Client/Laws/Listed.antt =====
-- What `api.list` returns.
use Prim.Native.String.{◌++◌ as concat}
use codespace_operator.Prelude.{
  String, ◌≡◌, ◌∙◌, ap, sym, Bool, true, false, Option, none, some, arith,
}
use codespace_operator.Js.Json.{Json, Items, null, arr, get, truthy, present}
use codespace_operator.Js.Result.{Result, ok}
use codespace_operator.Client.{Init, handle_response, api_request, api_fetch, json}
use codespace_operator.Client.Actions.{Response, response, Platform, World, Exec, pure, send, ◌>>=◌}
use codespace_operator.Client.Calls
use codespace_operator.Client.Laws.Answers.{handle_response_lem}
use codespace_operator.Client.Laws.Cookies.{list}
use codespace_operator.Client.Laws.Requests.{request_of}
use codespace_operator.Client.Laws.Served.{continue_ok, received_ok}

-- An array, whatever it holds.
abbrev pub IsArray : Json → Type 0
IsArray v = (rows : Items) × (v ≡ arr rows)

abbrev is_items : Option Json → Bool
is_items none = true
is_items (some null) = true
is_items (some (arr vs)) = true
is_items (some _) = false

-- A body of the shape of SessionListResponse, as far as `items` goes: missing, null or an array. An array
-- as the whole body has no `items`.
unfoldable pub is_list_answer : Json → Bool
is_list_answer v = is_items (get v "items")

ok_injective : (v out : Json) → ◌≡◌ {A = Result Json} (ok v) (ok out) → out ≡ v
ok_injective v out h = cc h

abbrev chosen : Option Json → Items → Exec Json
chosen items rest = elim (present items) [ some found ↦ pure found | none ↦ pure (arr rest) ]

chosen-arr :
    (items : Option Json) (rest : Items) (out : Json) (w : World)
    → is_items items ≡ true
    → (chosen items rest w).0 ≡ ok out
    → IsArray out
unfolding present truthy
chosen-arr none rest out w shaped h = (rest, ok_injective (arr rest) out h)
chosen-arr (some null) rest out w shaped h = (rest, ok_injective (arr rest) out h)
chosen-arr (some (arr vs)) rest out w shaped h = (vs, ok_injective (arr vs) out h)
chosen-arr (some v) rest out w shaped h = cc shaped

module _ (p : Platform) where
  list_answer_typed :
      (v out : Json) (w : World)
      → is_list_answer v ≡ true
      → (Calls.list_answer p v w).0 ≡ ok out
      → IsArray out
  unfolding is_list_answer Calls.list_answer
  list_answer_typed null out w shaped h = cc h
  list_answer_typed v out w shaped h = chosen-arr (get v "items") _ out w shaped h

  json_ok : (r : Response) (w : World) (v : Json) → (json p r w).0 ≡ ok v → r.body ≡ some v
  unfolding json
  json_ok r w v h = ground arith

  handled : (r a : Response) (w : World) → (handle_response r w).0 ≡ ok a → a ≡ r
  handled r a w h = ground (arith, (handle_response_lem r w "").0)

  fetched :
      (path : String) (init : Init) (w : World) (r : Response)
      → (api_fetch p path init w).0 ≡ ok r
      → p.answer w.sent (api_request p.base path init) ≡ response r
  unfolding api_fetch ◌>>=◌ send
  fetched path init w r h =
      let req = api_request p.base path init in
      let (r', got, rest) = continue_ok (send p req w).0 handle_response (send p req w).1 r h in
      received_ok (p.answer w.sent req) r' got
      ∙ ap response (sym (handled r' r (send p req w).1 rest))

-- Where the server answers with the shape of its description, a list of sessions is an array, whatever
-- namespace is asked for.
pub list-IsArray :
    (p : Platform) (ns : String) (w : World) (out : Json)
    → ((r : Response) (v : Json)
        → p.answer w.sent (request_of p (list ns)) ≡ response r
        → r.body ≡ some v
        → is_list_answer v ≡ true)
    → (Calls.list p ns w).0 ≡ ok out
    → IsArray out
unfolding Calls.list ◌>>=◌ request_of
list-IsArray p ns w out shaped h =
    let path = concat Calls.sessions_path (Calls.namespace_query ns) in
    let (r, got, rest) =
      continue_ok (api_fetch p path Calls.no_init w).0 (λ r. json p r >>= Calls.list_answer p)
        (api_fetch p path Calls.no_init w).1 out h in
    let w' = (api_fetch p path Calls.no_init w).1 in
    let (v, parsed, answered) =
      continue_ok (json p r w').0 (Calls.list_answer p) (json p r w').1 out rest in
    list_answer_typed p v out (json p r w').1
      (shaped r v (fetched p path Calls.no_init w r got) (json_ok p r w' v parsed)) answered
