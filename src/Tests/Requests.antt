-- ===== src/Tests/Requests.antt =====
-- Calls of the API client.
use codespace_operator.Prelude.{
  String, ◌≡◌, ◌≢◌, refl, inr, arith, eq_iff, none, some, [], ◌∷◌, ◌++◌, lookup, insert, without,
  if◌then◌else◌, eqb, ◌&&◌, ◌==◌,
}
use codespace_operator.Prelude.Int.{pos}
use codespace_operator.Js.Result.{ok, err}
use codespace_operator.Js.Text.{show}
use codespace_operator.Js.Uri.{encode_uri_component}
use codespace_operator.Js.Json.{
  str, arr, obj, nil, end, field, get, truthy, present, stringify, to_text,
}
use codespace_operator.Client.{
  api_request, api_fetch, handle_response, friendly, error_message, json, nested, normalize_list,
  normalize_object, user_key, auth_required,
}
use codespace_operator.Client.Calls
use codespace_operator.Client.Actions.{Response, send, remove_item, dispatch_event, ◌>>=◌}
use codespace_operator.Client.Laws.Cookies.{
  list, remove, scale, run, AllCookieOnly, run-IsCookieOnly,
}
use codespace_operator.Client.Laws.Answers.{by_error, handle_response_refused}
use codespace_operator.Client.Laws.Paths.{session_path-injective}
use codespace_operator.Tests.Samples.{reply_with, platform_with, sample_world}

-- Names all that a run of the client computes with.
unfoldable pub client : Unit {0}
unfolding run Calls.list Calls.create Calls.remove Calls.list_answer Calls.has_key
    Calls.create_request Calls.session_path Calls.namespace_query api_fetch api_request
    handle_response friendly error_message json nested normalize_list normalize_object send
    remove_item dispatch_event ◌>>=◌ get present truthy stringify to_text show encode_uri_component
    lookup insert without
client = tt

abbrev denied : Response
denied = reply_with 401 (some (obj (field "error" (str "who are you") end)))

call_tests :
    ((run (platform_with (reply_with 204 none)) (remove "dev" "a/b") sample_world).0
      ≡ ok (Calls.deleted "dev" "a/b"))
    × ((run (platform_with denied) (list "All") sample_world).0 ≡ err "who are you")
    × ((run (platform_with denied) (list "All") sample_world).1.storage ≡ ("co_ns", "dev") ∷ [])
    × ((run (platform_with (reply_with 500 none)) (list "All") sample_world).0
        ≡ err "HTTP 500: text")
    × ((run
          (platform_with
            (reply_with 200 (some (obj (field "data" (obj (field "items" (arr nil) end)) end)))))
          (list "dev")
          sample_world).0
        ≡ ok (arr nil))
    × (Calls.create_request (field "metadata" (obj (field "name" (str "web") end)) end)
        ≡ field "name"
            (str "web")
            (field "namespace" (str "default") (field "profile" Calls.default_profile end)))
    × (Calls.session_path "dev" "a/b" ≡ "/api/v1/server/sessions/dev/a%2Fb")
unfolding client
call_tests = (refl, refl, refl, refl, refl, refl, refl)

run-IsCookieOnly_example :
    AllCookieOnly
      (platform_with denied)
      (run (platform_with denied) (scale "dev" "web" (pos 3)) sample_world).1
run-IsCookieOnly_example =
    run-IsCookieOnly (platform_with denied) (scale "dev" "web" (pos 3)) sample_world tt

who-ne-empty : ◌≢◌ {A = String} "who are you" ""
who-ne-empty = ground (arith, eq_iff "who are you" "")

handle_response_refused_example :
    ((handle_response denied sample_world).0 ≡ err "who are you")
    × (lookup "co_user" (handle_response denied sample_world).1.storage ≡ (
        if eqb denied.status 401 && user_key == "co_user"
        then none
        else lookup "co_user" sample_world.storage))
    × ((handle_response denied sample_world).1.signals ≡ (
        if eqb denied.status 401
        then sample_world.signals ++ auth_required ∷ []
        else sample_world.signals))
    × ((handle_response denied sample_world).1.sent ≡ sample_world.sent)
unfolding client
handle_response_refused_example =
    handle_response_refused denied sample_world "who are you" "co_user"
      (by_error denied (obj (field "error" (str "who are you") end)) "who are you" refl refl
        who-ne-empty)
      (inr (omega arith))

session_path-injective_example : (◌≡◌ {A = String} "a/b" "a/b") × (◌≡◌ {A = String} "c" "c")
session_path-injective_example =
    session_path-injective (platform_with denied) "a/b" "c" "a/b" "c" (pos 1) (pos 1) (inr refl)
