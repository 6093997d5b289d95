-- ===== src/Views/Page.antt =====
-- ui/src/pages/SessionsPage.tsx: what the page offers and what its handlers do, as the list of their
-- effects in order. What the client answers to a call is a parameter, by the arguments of the call.
pub mod Laws
pub mod Wired
pub mod Scaled
pub mod View
use Prim.Native.String.{◌++◌}
use codespace_operator.Prelude.{
  ℕ, String, Bool, true, false, not, ◌&&◌, Option, none, some, List, [], ◌∷◌, ◌==◌, if◌then◌else◌,
  names_where,
}
use codespace_operator.Prelude.Int.{ℤ, pos, ◌+ℤ◌, clamp}
use codespace_operator.Js.Json.{Json}
use codespace_operator.Js.Result.{Result, ok, err}
use codespace_operator.Js.Sort.{sort}
use codespace_operator.Js.Text.{show}
use codespace_operator.Types.Session.{UiSession}
use codespace_operator.Types.Create.{SessionCreateRequest}
use codespace_operator.Types.Introspection.{Introspection, Domains, create}
use codespace_operator.Cap.{flag, is_true, is_listed}
use codespace_operator.Alerts.{Variant, success, danger, info}
use codespace_operator.Fetching.{message_or}
use codespace_operator.Sessions.{create_guarded, remove_guarded, scale_guarded, or_text}
use codespace_operator.Sessions.Search.{host_of}
use codespace_operator.Views.Form.{Form, submit, reset}
use codespace_operator.Views.Rows.{current_replicas}

abbrev pub server_list : Introspection → List String
server_list ix = elim ix.namespaces [
  | none ↦ []
  | some n ↦ elim n.user_creatable [ none ↦ [] | some nss ↦ nss ]
]

abbrev pub allowed_list : Introspection → List String
allowed_list ix = elim ix.namespaces [
  | none ↦ []
  | some n ↦ elim n.user_allowed [ none ↦ [] | some nss ↦ nss ]
]

abbrev pub entries : Option Domains → Domains
entries none = []
entries (some ds) = ds

-- The choice among the list of the server, the wildcard grant and the flags of each namespace.
abbrev choose : List String → Bool → List String → List String → List String
choose [] star allowed flagged = if star then sort allowed else sort flagged
choose (ns ∷ nss) star allowed flagged = sort (ns ∷ nss)

unfoldable pub creatable_namespaces : Option Introspection → List String
creatable_namespaces none = []
creatable_namespaces (some ix) =
    choose (server_list ix) (is_true (flag ix.domains "*" create)) (allowed_list ix)
      (names_where (is_listed create) (entries ix.domains))

pub data Effect : Type 0 where
  alert : String → Variant → Effect
  open_window : String → Effect
  refreshed dialog_closed : Effect
  -- the calls of the API
  removed : String × String → Effect
  scaled : String × String × ℤ → Effect
  created : SessionCreateRequest → Effect

unfoldable pub open_url : UiSession → List Effect
open_url s =
    let status_url : Option String = elim s.status [ none ↦ none | some t ↦ t.url ] in
    let host = host_of s.spec.networking in
    let url = or_text status_url (if host == "" then "" else "https://" ++ host) in
    if url == "" then alert "No URL yet" info ∷ [] else open_window url ∷ []

abbrev pub failure : String → String → List Effect
failure message other = alert (message_or message other) danger ∷ []

unfoldable pub do_delete :
    Option Introspection → (String × String → Result Json) → Bool → UiSession → List Effect
do_delete ix api confirmed s =
    let called : List Effect = elim (remove_guarded ix s.metadata.namespace s.metadata.name) [
      | err message ↦ failure message "Delete failed"
      | ok target ↦ removed target ∷ (elim (api target) [
        | err message ↦ failure message "Delete failed"
        | ok answer ↦ alert "Deleted" success ∷ refreshed ∷ []
      ])
    ] in
    if not confirmed then [] else called

-- With the pending targets, in which the target is noted before the call.
unfoldable pub handle_scale :
    Option Introspection
    → (String × String × ℤ → Result Json)
    → List (String × ℤ)
    → ℤ
    → UiSession
    → List Effect × List (String × ℤ)
handle_scale ix api targets delta s =
    let next = clamp (current_replicas s +ℤ delta) in
    let (answer, noted) =
      scale_guarded ix s.metadata.namespace s.metadata.name (pos next) targets in
    let called : List Effect = elim answer [
      | err message ↦ failure message "Scale failed"
      | ok target ↦ scaled target ∷ (elim (api target) [
        | err message ↦ failure message "Scale failed"
        | ok body ↦ alert ("Scaled to " ++ show next) success ∷ refreshed ∷ []
      ])
    ] in
    (called, noted)

abbrev name_text : Option String → String
name_text none = "undefined"
name_text (some name) = name

unfoldable pub handle_create :
    Option Introspection
    → (SessionCreateRequest → Result Json)
    → String
    → SessionCreateRequest
    → List Effect
handle_create ix api effective body = elim (create_guarded ix effective body) [
  | err message ↦ failure message "Create failed"
  | ok sent ↦ created sent ∷ (elim (api sent) [
    | err message ↦ failure message "Create failed"
    | ok answer ↦
        alert ("Session " ++ name_text body.name ++ " created") success
        ∷ dialog_closed
        ∷ refreshed
        ∷ []
  ])
]

-- `submit` of the form, which hands its body on to `handleCreate` and then resets.
unfoldable pub submit_form :
    Option Introspection → (SessionCreateRequest → Result Json) → String → Form → List Effect × Form
submit_form ix api effective f = elim (submit f) [
  | none ↦ ([], f)
  | some body ↦ (handle_create ix api effective body, reset f)
]

-- `isDisabled` of the button that opens the form
unfoldable pub is_create_disabled : List String → Bool → Bool
is_create_disabled [] is_loading = true
is_create_disabled (ns ∷ nss) is_loading = is_loading
