-- ===== src/Tests/Flow.antt =====
-- Signing in and out as a whole.
use codespace_operator.Prelude.{
  String, ◌≡◌, ◌≢◌, refl, true, false, none, some, List, [], ◌∷◌, arith, eq_iff, lookup,
}
use codespace_operator.Js.Json.{Json, str, obj, end, field, null, to_text}
use codespace_operator.Client.{user_key}
use codespace_operator.Client.Calls
use codespace_operator.Client.Actions.{Platform, World}
use codespace_operator.Auth.Tab as Tab
use codespace_operator.Auth.Tab.{Tab, Event, mount, answered, unmount, sign_out}
use codespace_operator.Auth.Tab.SignedOut.{IsOut, run-IsOut}
use codespace_operator.Auth.Late.{late_answer_signs_in}
use codespace_operator.Auth.Components.{ix_enabled}
use codespace_operator.Auth.{
  Auth, initial, restore, restored, logout, is_authenticated, display_name,
}
use codespace_operator.App.Routes.{Location, spinner, page, user_info, route, visit}
use codespace_operator.App.Routes.Laws.{sign_in_at}
use codespace_operator.Views.SignIn.{Page, initial_page}
use codespace_operator.Views.SignIn.Flow.{submit_credentials, sign_in_flow}
use codespace_operator.Tests.SignIn.{client}
use codespace_operator.Tests.Routes.{same, same-IsMatcher, profile_there}
use codespace_operator.Tests.Samples.{reply_with, platform_with, sample_world}

abbrev small : String → String
small s = s

abbrev asked : Location
asked = record { pathname = "/user-info"; from = none }

abbrev typed : Page
typed = record initial_page { username = "ann"; password = "x" }

abbrev nobody_yet : Auth
nobody_yet = initial none

abbrev ann : Json
ann = obj (field "username" (str "Ann") end)

-- A server that says so of everybody, and one that refuses.
abbrev friendly_server : Platform
friendly_server = platform_with (reply_with 200 (some ann))

abbrev refusing : Platform
refusing = platform_with (reply_with 401 (some (obj (field "error" (str "no session") end))))

ann-ne-null : ann ≢ null
ann-ne-null e = cc e

abbrev signed_in : World
signed_in =
    (submit_credentials friendly_server small (sign_in_at "/user-info") typed nobody_yet
      sample_world).world

abbrev gate : Auth
gate = initial (lookup user_key signed_in.storage)

abbrev known : Auth
known = (restore friendly_server small false gate signed_in).0

sign_in_flow_example :
    ((submit_credentials friendly_server small
        (sign_in_at "/user-info")
        typed
        nobody_yet
        sample_world).to
      ≡ some asked)
    × ((submit_credentials friendly_server small
          (sign_in_at "/user-info")
          typed
          nobody_yet
          sample_world).shown.busy
        ≡ false)
    × ((submit_credentials friendly_server small
          (sign_in_at "/user-info")
          typed
          nobody_yet
          sample_world).shown.error
        ≡ none)
    × (visit same 2 (is_authenticated gate) gate.is_loading asked ≡ some (spinner, asked))
    × (visit same 2 (is_authenticated known) known.is_loading asked ≡ some (page user_info, asked))
unfolding client submit_credentials route same display_name
sign_in_flow_example =
    sign_in_flow friendly_server small same same-IsMatcher typed nobody_yet sample_world ann ann
      "/user-info" user_info refl ann-ne-null refl refl profile_there refl refl

ann-ne-empty : ◌≢◌ {A = String} "ann" ""
ann-ne-empty = ground (arith, eq_iff "ann" "")

late_answer_signs_in_example :
    let (answer, asked_after) = Calls.get_current_user friendly_server sample_world in
    let w' = (logout friendly_server small nobody_yet asked_after).1 in
    let (told, again) = restored friendly_server small false answer nobody_yet w' in
    let unmounted = (restored friendly_server small true answer nobody_yet w').1 in
    (lookup user_key w'.storage ≡ none)
    × (is_authenticated told ≡ true)
    × (ix_enabled told ≡ true)
    × (lookup user_key again.storage ≡ some (to_text (display_name ann)))
    × (lookup user_key unmounted.storage ≡ none)
unfolding client display_name
late_answer_signs_in_example =
    late_answer_signs_in friendly_server small nobody_yet nobody_yet sample_world ann refl refl

-- Two components are mounted, and what they do overlaps.
abbrev overlapping : List Event
overlapping = mount ∷ mount ∷ answered 0 ∷ sign_out 1 ∷ answered 1 ∷ unmount 0 ∷ []

abbrev fresh_tab : Tab
fresh_tab = record { components = []; world = record sample_world { storage = [] } }

fresh_tab-IsOut : IsOut fresh_tab
unfolding lookup
fresh_tab-IsOut = record { forgotten = refl; nobody = tt }

run-IsOut_example : IsOut (Tab.run refusing small overlapping fresh_tab)
run-IsOut_example =
    run-IsOut refusing small overlapping fresh_tab (λ sent. refl)
      (refl, (refl, (refl, (refl, (refl, (refl, tt)))))) fresh_tab-IsOut
