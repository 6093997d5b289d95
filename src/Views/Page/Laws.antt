-- ===== src/Views/Page/Laws.antt =====
-- What the page calls, and when.
use codespace_operator.Prelude.{
  String, Bool, true, false, Option, some, List, [], ◌∷◌, ◌≡◌, ◌↔◌, arith, In, refl,
}
use codespace_operator.Prelude.Int.{ℤ, pos, ◌+ℤ◌, clamp}
use codespace_operator.Js.Json.{Json}
use codespace_operator.Js.Result.{Result, ok, err}
use codespace_operator.Types.Session.{UiSession}
use codespace_operator.Types.Create.{SessionCreateRequest}
use codespace_operator.Types.Introspection.{Introspection, Domains, create, delete, scale}
use codespace_operator.Cap.{can, flag, is_true, namespaces_where}
use codespace_operator.Alerts.{danger}
use codespace_operator.Fetching.{message_or}
use codespace_operator.Sessions.{create_guarded, remove_guarded, scale_guarded}
use codespace_operator.Views.Form.{Form, submit, reset}
use codespace_operator.Views.Rows.{current_replicas}
use codespace_operator.Views.Page.{
  alert, refreshed, removed, scaled, created, server_list, creatable_namespaces, do_delete,
  handle_scale, handle_create, submit_form,
}

-- A session is deleted exactly when the user has confirmed it and `can` grants "delete" in its
-- namespace, and no other session ever is; the list is fetched again exactly when that call succeeds.
do_delete_lem :
    (ix : Option Introspection) (api : String × String → Result Json) (confirmed : Bool)
    (s : UiSession) (target : String × String)
    → let own : String × String = (s.metadata.namespace, s.metadata.name) in
      (In (removed target) (do_delete ix api confirmed s)
        ↔ ((confirmed ≡ true) × ((can ix s.metadata.namespace delete ≡ true) × (target ≡ own))))
      × (In refreshed (do_delete ix api confirmed s) ↔ (
          (confirmed ≡ true)
          × ((can ix s.metadata.namespace delete ≡ true)
              × ((answer : Json) × (api own ≡ ok answer)))))
unfolding do_delete remove_guarded
do_delete_lem ix api confirmed s target = grind arith

-- A session is scaled exactly when `can` grants "scale" in its namespace, to its count changed by the
-- step but never below 0, and no other session ever is.
handle_scale_lem :
    (ix : Option Introspection) (api : String × String × ℤ → Result Json)
    (targets : List (String × ℤ)) (delta : ℤ) (s : UiSession) (target : String × String × ℤ)
    → In (scaled target) (handle_scale ix api targets delta s).0 ↔ (
        (can ix s.metadata.namespace scale ≡ true)
        × (target
            ≡ (s.metadata.namespace, s.metadata.name, pos (clamp (current_replicas s +ℤ delta)))))
unfolding handle_scale scale_guarded
handle_scale_lem ix api targets delta s target = grind arith

-- When the call for a new session fails, the form is reset although it stays open: what was typed is
-- lost and only the message is shown.
reset_after_failure :
    (ix : Option Introspection) (api : SessionCreateRequest → Result Json) (effective : String)
    (f : Form) (body sent : SessionCreateRequest) (message : String)
    → submit f ≡ some body
    → create_guarded ix effective body ≡ ok sent
    → api sent ≡ err message
    → submit_form ix api effective f
      ≡ (created sent ∷ alert (message_or message "Create failed") danger ∷ [], reset f)
unfolding submit_form handle_create
reset_after_failure ix api effective f body sent message given guarded failed = ground arith

-- Where the answer holds domains, and neither a list of creatable namespaces nor the wildcard grant, the
-- form offers exactly what `namespacesWhere` lists for "create".
creatable_namespaces_lem :
    (ix : Introspection) (ds : Domains)
    → server_list ix ≡ []
    → is_true (flag ix.domains "*" create) ≡ false
    → ix.domains ≡ some ds
    → namespaces_where (some ix) create ≡ ok (creatable_namespaces (some ix))
unfolding creatable_namespaces namespaces_where
creatable_namespaces_lem ix ds unlisted no_star there = rw (unlisted, no_star, there) refl
