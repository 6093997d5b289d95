-- ===== src/Sessions.antt =====
-- ui/src/hooks/useSessions.ts: the namespace that is watched, the rows that the stream keeps up to
-- date, the replica targets that wait for it, and the actions that are guarded by `can`.
pub mod Rows
pub mod Guards
pub mod Loading
pub mod Search
pub mod Replay
pub mod Server
pub mod Effective
pub mod Stream
pub mod Targets
use Prim.Native.String.{◌++◌}
use codespace_operator.Prelude.{
  ℕ, zero, suc, String, Bool, true, false, not, ◌&&◌, ◌||◌, Option, none, some, List, [], ◌∷◌, ◌==◌,
  if◌then◌else◌, lookup, insert, without, filter, find, first,
}
use codespace_operator.Prelude.Int.{ℤ}
use codespace_operator.Js.Result.{Result, ok, err, ◌>>=◌}
use codespace_operator.Types.Session.{UiSession, SessionEvent}
use codespace_operator.Types.Introspection.{
  Action, watch, create, delete, scale, list, DomainPermissions, Domains, Introspection,
}
use codespace_operator.Types.Create.{SessionCreateRequest, ProfileSpec}
use codespace_operator.Cap.{can, session_flag, is_true}

-- `s || other` of an optional text
abbrev pub or_text : Option String → String → String
or_text none other = other
or_text (some s) other = if s == "" then other else s

-- `ns !== "*" && v.session?.list`
unfoldable pub may_list : String × DomainPermissions → Bool
may_list (ns, v) = not (ns == "*") && is_true (session_flag v list)

abbrev domains_of : Option Introspection → Domains
domains_of none = []
domains_of (some ix) = elim ix.domains [ none ↦ [] | some ds ↦ ds ]

abbrev entry : Option (String × DomainPermissions) → Option String
entry none = none
entry (some (ns, v)) = some ns

unfoldable pub effective_ns : Option Introspection → String → String
effective_ns ix namespace =
    let allowed = entry (find may_list (domains_of ix)) in
    if not (namespace == "All")
    then namespace
    else if can ix "*" watch
    then "All"
    else or_text allowed "default"

-- `x.metadata.name === name`
abbrev pub has_name : String → UiSession → Bool
has_name name x = x.metadata.name == name

module _ {ℓ} {A : Type ℓ} where
  -- `xs.findIndex(p)`; -1 is none
  unfoldable pub find_index : (A → Bool) → List A → Option ℕ
  find_index p [] = none
  find_index p (x ∷ xs) =
      let later : Option ℕ = elim (find_index p xs) [ none ↦ none | some i ↦ some (suc i) ] in
      if p x then some 0 else later

  -- `next[i] = v` within the bounds
  unfoldable pub set : List A → ℕ → A → List A
  set [] i v = []
  set (x ∷ xs) zero v = v ∷ xs
  set (x ∷ xs) (suc i) v = x ∷ set xs i v

-- The update of the rows for one event of the stream.
unfoldable pub apply_event : SessionEvent → List UiSession → List UiSession
apply_event ev rows =
    let name = ev.object.metadata.name in
    let kept = filter (λ x. not (has_name name x)) rows in
    let updated : List UiSession = elim (find_index (has_name name) rows) [
      | none ↦ ev.object ∷ rows
      | some i ↦ set rows i ev.object
    ] in
    if ev.type == "DELETED" then kept else updated

abbrev pub target_key : String → String → String
target_key ns name = ns ++ "/" ++ name

abbrev pub event_key : SessionEvent → String
event_key ev = target_key ev.object.metadata.namespace ev.object.metadata.name

-- `if (!(k in p)) return p; const { [k]: _, ...rest } = p; return rest;`
unfoldable pub clear_target : SessionEvent → List (String × ℤ) → List (String × ℤ)
clear_target ev p = elim (lookup (event_key ev) p) [ none ↦ p | some _ ↦ without (event_key ev) p ]

-- What a guarded action does: it throws, or calls the API.
abbrev forbidden : String → String → String
forbidden verb ns = "Not allowed to " ++ verb ++ " in " ++ ns

-- `req.namespace ?? (effectiveNs !== "All" ? effectiveNs : undefined)`
abbrev pub candidate : SessionCreateRequest → String → Option String
candidate req effective = elim req.namespace [
  | some ns ↦ some ns
  | none ↦ if not (effective == "All") then some effective else none
]

abbrev pub first_creatable : Option Introspection → Option String
first_creatable none = none
first_creatable (some ix) = elim ix.namespaces [
  | none ↦ none
  | some n ↦ elim n.user_creatable [ none ↦ none | some nss ↦ first nss ]
]

-- A text that is there and not empty.
abbrev pub truthy_text : Option String → Option String
truthy_text none = none
truthy_text (some s) = if s == "" then none else some s

abbrev pub with_namespace : SessionCreateRequest → String → SessionCreateRequest
with_namespace req ns = record req { namespace = some ns }

-- The namespace of the request is settled, or the action throws.
unfoldable pub settle :
    Option Introspection
    → SessionCreateRequest
    → Option String
    → Option String
    → Result SessionCreateRequest
settle ix req (some ns) creatable =
    if not (can ix ns create) then err (forbidden "create" ns) else ok (with_namespace req ns)
settle ix req none (some ns) = ok (with_namespace req ns)
settle ix req none none = err "Pick a namespace to create the session in."

unfoldable pub resolve_namespace :
    Option Introspection → String → SessionCreateRequest → Result SessionCreateRequest
resolve_namespace ix effective req =
    settle ix req (truthy_text (candidate req effective)) (truthy_text (first_creatable ix))

abbrev ide_of : Option ProfileSpec → Option String
ide_of none = none
ide_of (some p) = truthy_text p.ide

abbrev image_of : Option ProfileSpec → Option String
image_of none = none
image_of (some p) = truthy_text p.image

abbrev pub profile_parts : SessionCreateRequest → Option (String × String)
profile_parts req = elim (ide_of req.profile) [
  | none ↦ none
  | some i ↦ elim (image_of req.profile) [ none ↦ none | some m ↦ some (i, m) ]
]

unfoldable pub require_fields : SessionCreateRequest → Result SessionCreateRequest
require_fields req =
    let profiled : Result SessionCreateRequest = elim (profile_parts req) [
      | none ↦ err "Profile (ide, image) is required."
      | some _ ↦ ok req
    ] in
    elim (truthy_text req.name) [ none ↦ err "Name is required." | some _ ↦ profiled ]

-- `actions.create`: the request that is sent, or the error.
unfoldable pub create_guarded :
    Option Introspection → String → SessionCreateRequest → Result SessionCreateRequest
create_guarded ix effective req = do r ← resolve_namespace ix effective req; require_fields r

-- The session that is removed, or the error.
unfoldable pub remove_guarded : Option Introspection → String → String → Result (String × String)
remove_guarded ix ns name =
    if not (can ix ns delete) then err (forbidden "delete" ns) else ok (ns, name)

-- The targets, and the session that is scaled or the error. The target is noted before the call.
unfoldable pub scale_guarded :
    Option Introspection
    → String
    → String
    → ℤ
    → List (String × ℤ)
    → Result (String × String × ℤ) × List (String × ℤ)
scale_guarded ix ns name replicas targets =
    if not (can ix ns scale)
    then (err (forbidden "scale" ns), targets)
    else (ok (ns, name, replicas), insert (target_key ns name) replicas targets)

-- `actions.can.*`
unfoldable pub can_in : Option Introspection → Action → String → Bool
can_in ix action ns = can ix (if ns == "All" then "*" else ns) action
