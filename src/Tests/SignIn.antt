-- ===== src/Tests/SignIn.antt =====
-- Signing in and out.
use codespace_operator.Prelude.{
  String, ◌≡◌, ◌≢◌, refl, false, none, some, [], ◌∷◌, lookup, insert, without,
}
use codespace_operator.Js.Result.{err}
use codespace_operator.Js.Text.{includes_text, show}
use codespace_operator.Js.Json.{
  Json, null, str, arr, obj, nil, cons, end, field, get, truthy, present, stringify, to_text,
}
use codespace_operator.Client.{
  api_request, api_fetch, handle_response, friendly, error_message, json, user_key,
}
use codespace_operator.Client.Calls
use codespace_operator.Client.Actions.{Platform, send, remove_item, dispatch_event, ◌>>=◌}
use codespace_operator.Auth.{
  Auth, initial, store_user, restored, restore, display_name, logged_in, login_password,
  is_authenticated,
}
use codespace_operator.Auth.Laws.{sign_in}
use codespace_operator.Auth.Components.{
  Components, in_other, mount, unmount, step, run, ix_enabled, is_elsewhere, app_not_told,
}
use codespace_operator.App.{require_auth, waiting, content}
use codespace_operator.Tests.Samples.{reply_with, platform_with, sample_world}

abbrev small : String → String
small s = s

abbrev signed_out : Auth
signed_out = record { user = null; roles = []; token = none; is_loading = false }

abbrev welcome : Platform
welcome = platform_with (
    reply_with 200
      (some (obj (field "user" (str "Ann") (field "roles" (arr (cons (str "admin") nil)) end)))))

abbrev locked : Platform
locked = platform_with (reply_with 403 (some (obj (field "error" (str "account locked") end))))

unfoldable pub client : Unit {0}
unfolding Calls.local_login Calls.get_current_user Calls.logout api_fetch api_request
    handle_response friendly error_message json send remove_item dispatch_event ◌>>=◌ get present
    truthy stringify to_text show lookup insert without includes_text
client = tt

sign_in_tests :
    ((login_password locked small "ann" "x" signed_out sample_world).0
      ≡ err "Account is locked. Contact your administrator.")
    × ((login_password welcome small "ann" "x" signed_out sample_world).1.user ≡ str "Ann")
    × ((login_password welcome small "ann" "x" signed_out sample_world).2.storage
        ≡ ("co_ns", "dev") ∷ ("co_user", "Ann") ∷ [])
    × ((restore
          (platform_with (reply_with 401 none))
          small
          false
          (initial (some "ann"))
          sample_world).1.storage
        ≡ ("co_ns", "dev") ∷ [])
unfolding client login_password logged_in store_user restore restored initial
sign_in_tests = (refl, refl, refl, refl)

abbrev told_user : Json
told_user = obj (field "user" (str "Ann") (field "username" (str "Ann") end))

told_user-ne-null : told_user ≢ null
told_user-ne-null e = cc e

-- App and the sign-in page, with nothing stored.
abbrev first_visit : Components
first_visit = record {
  app = initial none;
  others = initial none ∷ [];
  world = record sample_world { storage = [] };
}

-- A server that answers everything with the user.
abbrev talkative : Platform
talkative = platform_with (reply_with 200 (some told_user))

app_not_told_example :
    let signed_in = step talkative small (in_other 0 (sign_in "ann" "x")) first_visit in
    let gate = initial (lookup user_key signed_in.world.storage) in
    let known = (restore talkative small false gate signed_in.world).0 in
    ((step talkative small mount signed_in).others ≡ gate ∷ signed_in.others)
    × (require_auth (is_authenticated gate) gate.is_loading "/info" ≡ waiting)
    × (require_auth (is_authenticated known) known.is_loading "/info" ≡ content)
    × (lookup user_key signed_in.world.storage ≡ some "Ann")
    × (ix_enabled (run talkative small (mount ∷ unmount 1 ∷ []) signed_in).app ≡ false)
unfolding client is_authenticated initial is_elsewhere display_name
app_not_told_example =
    app_not_told talkative small "ann" "x" "/info" told_user told_user first_visit (initial none)
      (mount ∷ unmount 1 ∷ []) refl refl refl told_user-ne-null refl refl refl (refl, (refl, tt))
