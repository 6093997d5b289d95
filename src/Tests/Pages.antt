-- ===== src/Tests/Pages.antt =====
-- The views at concrete inputs.
use codespace_operator.Prelude.{
  String, true, false, some, List, [], ◌≡◌, ◌≢◌, ◌↔◌, inl, refl, In, filter, includes, lookup,
}
use codespace_operator.Prelude.Int.{pos}
use codespace_operator.Js.Json.{Json}
use codespace_operator.Js.Result.{Result, ok, err}
use codespace_operator.Js.Sort.{sort}
use codespace_operator.Types.Introspection.{create, delete, scale, watch, action_name}
use codespace_operator.Types.Create.{SessionCreateRequest}
use codespace_operator.Cap.{can, flag, session_flag}
use codespace_operator.Namespaces.{can_perform_action, merge, merge_lists, merge_limited}
use codespace_operator.Sessions.{
  create_guarded, resolve_namespace, require_fields, settle, remove_guarded, scale_guarded, can_in,
}
use codespace_operator.Views.Rows.{row_view}
use codespace_operator.Views.Rows.Buttons.{buttons_match_guards}
use codespace_operator.Views.Form.{Form, initial_form, request_body, submit, ide_name}
use codespace_operator.Views.Form.Laws.{submit-create_guarded}
use codespace_operator.Views.Options.{select_options}
use codespace_operator.Tests.Samples.{sample_ix, session, limited_user, sample_server}

abbrev form : Form
form = record initial_form { name = "web"; namespace = "dev" }

form_submits : submit form ≡ some (request_body form)
unfolding submit
form_submits = refl

submit-create_guarded_example :
    (create_guarded (some sample_ix) "All" (request_body form) ≡ ok (request_body form))
    ↔ ((can (some sample_ix) "dev" create ≡ true) × (form.image ≢ ""))
submit-create_guarded_example =
    submit-create_guarded (some sample_ix) "All" form (request_body form) form_submits

buttons_match_guards_example :
    (((row_view
          (can_in (some sample_ix) scale)
          (can_in (some sample_ix) delete)
          []
          (session "ops" "web" "i")).scale_up.is_disabled
        ≡ false)
      ↔ ((scale_guarded (some sample_ix) "ops" "web" (pos 2) []).0 ≡ ok ("ops", "web", pos 2)))
    × (((row_view
            (can_in (some sample_ix) scale)
            (can_in (some sample_ix) delete)
            []
            (session "ops" "web" "i")).scale_down.is_disabled
          ≡ false)
        ↔ ((scale_guarded (some sample_ix) "ops" "web" (pos 2) []).0 ≡ ok ("ops", "web", pos 2)))
    × (((row_view
            (can_in (some sample_ix) scale)
            (can_in (some sample_ix) delete)
            []
            (session "ops" "web" "i")).delete.is_disabled
          ≡ false)
        ↔ (remove_guarded (some sample_ix) "ops" "web" ≡ ok ("ops", "web")))
buttons_match_guards_example =
    buttons_match_guards (some sample_ix) [] (session "ops" "web" "i") (pos 2)

abbrev refusing : SessionCreateRequest → Result Json
refusing req = err "quota"

form_guarded : create_guarded (some sample_ix) "All" (request_body form) ≡ ok (request_body form)
unfolding create_guarded resolve_namespace require_fields settle request_body can flag session_flag
    lookup action_name ide_name
form_guarded = refl

abbrev options : List String
options =
    select_options (can_perform_action (some limited_user) watch "*")
      (merge (some limited_user) (some sample_server)).all_namespaces

dev_offered : In "dev" options
unfolding select_options can_perform_action flag session_flag lookup merge merge_lists merge_limited
    sort filter includes action_name
dev_offered = inl refl
