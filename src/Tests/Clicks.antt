-- ===== src/Tests/Clicks.antt =====
-- The requests that a click sends.
use codespace_operator.Prelude.{
  ◌≡◌, true, ◌&&◌, none, some, List, [], ◌∷◌, ◌++◌, map, if◌then◌else◌,
}
use codespace_operator.Prelude.Int.{pos, ◌+ℤ◌, clamp}
use codespace_operator.Js.Result.{ok, err}
use codespace_operator.Types.Introspection.{delete, scale as scale_action}
use codespace_operator.Cap.{can}
use codespace_operator.Client.Actions.{Platform}
use codespace_operator.Client.Laws.Cookies.{Call, create, remove, scale, run}
use codespace_operator.Client.Laws.Requests.{request_of}
use codespace_operator.Sessions.{create_guarded}
use codespace_operator.Views.Form.{Form, initial_form, submit}
use codespace_operator.Views.Rows.{current_replicas}
use codespace_operator.Views.Page.Wired.{
  click_delete, click_scale, click_create, listed_after, body_of, click_delete_lem, click_scale_lem,
  click_create_lem,
}
use codespace_operator.Tests.Samples.{session, sample_ix, sample_world, platform_with, reply_with}

abbrev gone : Platform
gone = platform_with (reply_with 204 none)

abbrev kept : List Call
kept = remove "ops" "web" ∷ listed_after "ops" (run gone (remove "ops" "web") sample_world).0

click_delete_example :
    (click_delete gone "ops" (some sample_ix) true (session "ops" "web" "code:1") sample_world).sent
    ≡ sample_world.sent
      ++ map (request_of gone) (if true && can (some sample_ix) "ops" delete then kept else [])
click_delete_example =
    click_delete_lem gone "ops" (some sample_ix) (session "ops" "web" "code:1") sample_world true

click_scale_example :
    let s = session "dev" "web" "code:1" in
    let own = scale "dev" "web" (pos (clamp (current_replicas s +ℤ pos 1))) in
    (click_scale gone "All" (some sample_ix) [] (pos 1) s sample_world).sent
    ≡ sample_world.sent
      ++ map (request_of gone) (
          if can (some sample_ix) "dev" scale_action
          then own ∷ listed_after "All" (run gone own sample_world).0
          else [])
click_scale_example =
    click_scale_lem gone "All" (some sample_ix) (session "dev" "web" "code:1") sample_world []
      (pos 1)

abbrev filled : Form
filled = record initial_form { name = "web"; namespace = "dev" }

click_create_example :
    (click_create gone "dev" (some sample_ix) filled sample_world).sent
    ≡ sample_world.sent
      ++ map (request_of gone) (elim (submit filled) [
        | none ↦ []
        | some body ↦ elim (create_guarded (some sample_ix) "dev" body) [
          | err message ↦ []
          | ok sent ↦
              create (body_of sent)
              ∷ listed_after "dev" (run gone (create (body_of sent)) sample_world).0
        ]
      ])
click_create_example = click_create_lem gone "dev" (some sample_ix) filled sample_world
