-- ===== src/Views/Page/Wired.antt =====
-- The handlers of ui/src/pages/SessionsPage.tsx over the real client: the requests that a click sends,
-- in the browser's world.
use mathlib.Core.List.{append-nil, append_assoc}
use codespace_operator.Prelude.{
  String, ◌≡◌, ◌∙◌, ap, sym, Bool, true, false, ◌&&◌, Option, none, some, List, [], ◌∷◌, ◌++◌, map,
  arith, if◌then◌else◌,
}
use codespace_operator.Prelude.Int.{ℤ, pos, ◌+ℤ◌, clamp}
use codespace_operator.Js.Json.{Json, Items, nil, cons, Fields, end, field, str, num, arr, obj}
use codespace_operator.Js.Result.{Result, ok, err}
use codespace_operator.Types.Session.{UiSession, Labels}
use codespace_operator.Types.Create.{
  SessionCreateRequest, OidcRef, AuthSpec, NetSpec, PvcSpec, ProfileSpec,
}
use codespace_operator.Types.Introspection.{Introspection, delete, scale as scale_action}
use codespace_operator.Cap.{can}
use codespace_operator.Client.Actions.{Platform, Request, World}
use codespace_operator.Client.Laws.Cookies.{Call, list, create, remove, scale, run}
use codespace_operator.Client.Laws.Requests.{request_of, run_sends}
use codespace_operator.Sessions.{create_guarded, remove_guarded, scale_guarded}
use codespace_operator.Views.Form.{Form, submit}
use codespace_operator.Views.Rows.{current_replicas}
use codespace_operator.Views.Page.{
  Effect, alert, open_window, refreshed, dialog_closed, removed, scaled, created, do_delete,
  handle_scale, submit_form, handle_create,
}

-- A property that JSON.stringify leaves out when it is undefined.
abbrev given : String → Option Json → Fields → Fields
given key none rest = rest
given key (some v) rest = field key v rest

abbrev text : Option String → Option Json
text none = none
text (some s) = some (str s)

abbrev texts : List String → Items
texts [] = nil
texts (s ∷ ss) = cons (str s) (texts ss)

abbrev labels : Labels → Fields
labels [] = end
labels ((k, v) ∷ rest) = field k (str v) (labels rest)

abbrev profile_json : ProfileSpec → Json
profile_json p = obj (
    given "ide" (text p.ide) (
      given "image" (text p.image)
        (given "cmd" (elim p.cmd [ none ↦ none | some ss ↦ some (arr (texts ss)) ]) end)))

abbrev networking_json : NetSpec → Json
networking_json n = obj (
    given "host" (text n.host) (
      given "tlsSecretName" (text n.tls_secret_name) (
        given "annotations" (elim n.annotations [ none ↦ none | some ls ↦ some (obj (labels ls)) ])
          end)))

abbrev pvc_json : PvcSpec → Json
pvc_json p = obj (
    given "mountPath" (text p.mount_path)
      (given "size" (text p.size) (given "storageClassName" (text p.storage_class_name) end)))

abbrev oidc_json : OidcRef → Json
oidc_json o = obj (
    given "clientIDSecret" (text o.client_id_secret) (
      given "clientSecretRef" (text o.client_secret_ref)
        (given "issuerURL" (text o.issuer_url) end)))

abbrev auth_json : AuthSpec → Json
auth_json a = obj (
    given "mode" (text a.mode)
      (given "oidc" (elim a.oidc [ none ↦ none | some o ↦ some (oidc_json o) ]) end))

-- The object that is handed to the client. The order of its properties means nothing to the server.
abbrev pub body_of : SessionCreateRequest → Fields
body_of r = given "name" (text r.name) (
    given "namespace" (text r.namespace) (
      given "profile" (elim r.profile [ none ↦ none | some p ↦ some (profile_json p) ])
        (given "networking" (elim r.networking [ none ↦ none | some n ↦ some (networking_json n) ])
          (given "replicas" (elim r.replicas [ none ↦ none | some n ↦ some (num n) ])
            (given "auth" (elim r.auth [ none ↦ none | some a ↦ some (auth_json a) ])
              (given "home" (elim r.home [ none ↦ none | some h ↦ some (pvc_json h) ])
                (given "scratch" (elim r.scratch [ none ↦ none | some h ↦ some (pvc_json h) ])
                  end)))))))

-- The calls of the client that an effect makes; a refresh lists the namespace that is shown.
abbrev calls_of : String → Effect → List Call
calls_of effective (removed (ns, name)) = remove ns name ∷ []
calls_of effective (scaled (ns, name, replicas)) = scale ns name replicas ∷ []
calls_of effective (created sent) = create (body_of sent) ∷ []
calls_of effective refreshed = list effective ∷ []
calls_of effective (alert message variant) = []
calls_of effective (open_window url) = []
calls_of effective dialog_closed = []

unfoldable pub calls : String → List Effect → List Call
calls effective [] = []
calls effective (e ∷ es) = calls_of effective e ++ calls effective es

unfoldable pub run_all : Platform → List Call → World → World
run_all p [] w = w
run_all p (c ∷ cs) w = run_all p cs (run p c w).1

-- A handler, whose first call is answered in the world that it starts in.
module _ (p : Platform) (effective : String) where
  unfoldable pub click_delete : Option Introspection → Bool → UiSession → World → World
  click_delete ix confirmed s w =
      let api : String × String → Result Json = λ t. (run p (remove t.0 t.1) w).0 in
      run_all p (calls effective (do_delete ix api confirmed s)) w

  unfoldable pub click_scale :
      Option Introspection → List (String × ℤ) → ℤ → UiSession → World → World
  click_scale ix targets delta s w =
      let api : String × String × ℤ → Result Json = λ t. (run p (scale t.0 t.1 t.2) w).0 in
      run_all p (calls effective (handle_scale ix api targets delta s).0) w

  unfoldable pub click_create : Option Introspection → Form → World → World
  click_create ix f w =
      let api : SessionCreateRequest → Result Json = λ sent. (run p (create (body_of sent)) w).0 in
      run_all p (calls effective (submit_form ix api effective f).0) w

run_all-sent :
    (p : Platform) (cs : List Call) (w : World)
    → (run_all p cs w).sent ≡ w.sent ++ map (request_of p) cs
unfolding run_all
run_all-sent p [] w = sym (append-nil w.sent)
run_all-sent p (c ∷ cs) w =
    run_all-sent p cs (run p c w).1
    ∙ ap (λ (sent : List Request). sent ++ map (request_of p) cs) (run_sends p c w)
    ∙ append_assoc w.sent (request_of p c ∷ []) (map (request_of p) cs)

abbrev pub succeeded : {A : Type 0} → Result A → Bool
succeeded (ok a) = true
succeeded (err message) = false

-- What is fetched again once a call has succeeded.
abbrev pub listed_after : String → Result Json → List Call
listed_after effective answer = if succeeded answer then list effective ∷ [] else []

module _ (p : Platform) (effective : String) (ix : Option Introspection) (s : UiSession)
    (w : World) where
  -- The button "Delete" sends nothing unless it is confirmed and `can` grants "delete" in the namespace of
  -- the session; then it sends the one DELETE request of this session, and the list of the namespace that
  -- is shown exactly if that call succeeds.
  pub click_delete_lem :
      (confirmed : Bool)
      → let own = remove s.metadata.namespace s.metadata.name in
        (click_delete p effective ix confirmed s w).sent
        ≡ w.sent
          ++ map (request_of p) (
              if confirmed && can ix s.metadata.namespace delete
              then own ∷ listed_after effective (run p own w).0
              else [])
  unfolding click_delete do_delete remove_guarded calls
  click_delete_lem confirmed =
      run_all-sent p _ w ∙ ap (λ cs. w.sent ++ map (request_of p) cs) (ground arith)

  -- A button that scales sends nothing unless `can` grants "scale" in the namespace of the session; then it
  -- sends the one POST request with the count of the session, changed by the step but never below 0, and
  -- the list of the namespace that is shown exactly if that call succeeds.
  pub click_scale_lem :
      (targets : List (String × ℤ)) (delta : ℤ)
      → let own =
          scale s.metadata.namespace s.metadata.name (pos (clamp (current_replicas s +ℤ delta))) in
        (click_scale p effective ix targets delta s w).sent
        ≡ w.sent
          ++ map (request_of p) (
              if can ix s.metadata.namespace scale_action
              then own ∷ listed_after effective (run p own w).0
              else [])
  unfolding click_scale handle_scale scale_guarded calls
  click_scale_lem targets delta =
      run_all-sent p _ w ∙ ap (λ cs. w.sent ++ map (request_of p) cs) (ground arith)

-- The button "Create" sends nothing unless the form is filled in and the create action settles its request;
-- then it sends the one POST request with what was settled, and the list of the namespace that is shown
-- exactly if that call succeeds.
pub click_create_lem :
    (p : Platform) (effective : String) (ix : Option Introspection) (f : Form) (w : World)
    → (click_create p effective ix f w).sent
      ≡ w.sent
        ++ map (request_of p) (elim (submit f) [
          | none ↦ []
          | some body ↦ elim (create_guarded ix effective body) [
            | err message ↦ []
            | ok sent ↦
                create (body_of sent) ∷ listed_after effective (run p (create (body_of sent)) w).0
          ]
        ])
unfolding click_create submit_form handle_create calls
click_create_lem p effective ix f w =
    run_all-sent p _ w ∙ ap (λ cs. w.sent ++ map (request_of p) cs) (ground arith)
