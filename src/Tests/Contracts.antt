-- ===== src/Tests/Contracts.antt =====
-- Calls of the client against the description of the API.
use codespace_operator.Prelude.{◌≡◌, refl, true, none, some, lookup, subst, [], ◌∷◌, ◌++◌}
use codespace_operator.Client.{is_ok}
use codespace_operator.Client.Calls
use codespace_operator.Client.Actions.{Platform, Response, response}
use codespace_operator.Client.Laws.Cookies.{list, remove, run}
use codespace_operator.Js.Json.{Json, obj, field, arr, cons, nil, end, str, get}
use codespace_operator.Client.Laws.Listed.{IsArray, is_list_answer, list-IsArray}
use codespace_operator.Client.Laws.Requests.{request_of, is_checked, run_returned}
use codespace_operator.Contract.Conforms.{IsDescribed, is_described, run-IsDescribed}
use codespace_operator.Tests.Requests.{client}
use codespace_operator.Tests.Samples.{reply_with, platform_with, sample_world}

abbrev gone : Platform
gone = platform_with (reply_with 204 none)

run-IsDescribed_example :
    ((run gone (remove "dev" "a/b") sample_world).1.sent
      ≡ sample_world.sent ++ request_of gone (remove "dev" "a/b") ∷ [])
    × IsDescribed gone.base (request_of gone (remove "dev" "a/b"))
unfolding is_described
run-IsDescribed_example = run-IsDescribed gone (remove "dev" "a/b") sample_world refl

run_returned_example :
    (r : Response) × (gone.answer sample_world.sent (request_of gone (remove "dev" "a/b"))
      ≡ response r)
    × (is_ok r ≡ true)
unfolding client is_checked
run_returned_example =
    run_returned gone (remove "dev" "a/b") sample_world (Calls.deleted "dev" "a/b") refl refl

abbrev one_session : Json
one_session = obj (field "items" (arr (cons (str "web") nil)) end)

abbrev listing : Platform
listing = platform_with (reply_with 200 (some one_session))

one_session_shaped : is_list_answer one_session ≡ true
unfolding is_list_answer get lookup
one_session_shaped = refl

shaped :
    (r : Response) (v : Json)
    → listing.answer sample_world.sent (request_of listing (list "dev")) ≡ response r
    → r.body ≡ some v
    → is_list_answer v ≡ true
shaped r v answered there =
    subst (λ u. is_list_answer u ≡ true) (cc (answered, there)) one_session_shaped

list-IsArray_example : IsArray (arr (cons (str "web") nil))
unfolding client
list-IsArray_example =
    list-IsArray listing "dev" sample_world (arr (cons (str "web") nil)) shaped refl
