-- ===== src/Views/Page/Scaled.antt =====
-- The row of a session from the click on a scale button to the events of the stream: the handler of
-- ui/src/pages/SessionsPage.tsx, the rows and targets of ui/src/hooks/useSessions.ts, and the cell of
-- ui/src/components/SessionsTable.tsx together.
use Prim.Native.String.{◌++◌}
use text.Mathlib.TextLemmas.{append_cancel_left}
use codespace_operator.Prelude.{
  String, ◌≡◌, refl, ◌∙◌, Bool, true, false, Option, none, some, List, [], ◌∷◌, arith, ◌==◌, eq_iff,
  if◌then◌else◌, lookup, Option-cases, Bool-cases, inl, inr,
}
use codespace_operator.Prelude.Int.{ℤ, pos, ◌+ℤ◌, clamp}
use codespace_operator.Js.Json.{Json}
use codespace_operator.Js.Result.{Result}
use codespace_operator.Types.Session.{UiSession, SessionEvent}
use codespace_operator.Types.Introspection.{Introspection, scale}
use codespace_operator.Cap.{can}
use codespace_operator.Sessions.{target_key, scale_guarded}
use codespace_operator.Sessions.Rows.{row}
use codespace_operator.Sessions.Replay.{replay_events, latest, replay_latest}
use codespace_operator.Sessions.Server.{IsOf}
use codespace_operator.Sessions.Targets.{replay_targets, mentions, target_waits_for_event}
use codespace_operator.Views.Rows.{
  Replicas, steady, current_replicas, replicas_cell, replicas_toward,
}
use codespace_operator.Views.Page.{handle_scale}

key-eq : (ns a b : String) → (target_key ns a == target_key ns b) ≡ (a == b)
key-eq ns a b = ground (arith, eq_iff a b, eq_iff (target_key ns a) (target_key ns b), cancelled)
  where
    cancelled : target_key ns a ≡ target_key ns b → a ≡ b
    cancelled e = append_cancel_left "/" a b (append_cancel_left ns ("/" ++ a) ("/" ++ b) e)

abbrev is_some : {A : Type 0} → Option A → Bool
is_some none = false
is_some (some a) = true

mentions-latest :
    (ns name : String) (es : List SessionEvent)
    → IsOf ns es
    → mentions (target_key ns name) es ≡ is_some (latest name es)
unfolding mentions latest
mentions-latest ns name [] h = refl
mentions-latest ns name (ev ∷ es) h =
    let same = key-eq ns ev.object.metadata.name name in
    let later = mentions-latest ns name es h.1 in
    rw (h.0, same, later)
      (elim (Option-cases (latest name es)) [
        | inl e ↦ rw e (ground arith)
        | inr (last, e) ↦ rw e (ground arith)
      ])

-- What the table shows under a name: the session, and the cell of its replicas.
unfoldable pub shown : List UiSession → List (String × ℤ) → String → Option (UiSession × Replicas)
shown rows targets name = elim (row rows name) [
  | none ↦ none
  | some x ↦ some (x, replicas_cell targets x)
]

latest-IsOf :
    (ns name : String) (es : List SessionEvent) (ev : SessionEvent)
    → IsOf ns es
    → latest name es ≡ some ev
    → (ev.object.metadata.namespace ≡ ns) × (ev.object.metadata.name ≡ name)
unfolding latest
latest-IsOf ns name [] ev h e = cc e
latest-IsOf ns name (x ∷ es) ev h e = elim (Option-cases (latest name es)) [
  | inl missing ↦
      let here : (if x.object.metadata.name == name then some x else none) ≡ some ev =
        rw missing at e in
      elim (Bool-cases (x.object.metadata.name == name)) [
        | inl named ↦
            let last : some x ≡ some ev = rw named at here in
            let same : x ≡ ev = cc in rw⁻¹ same (h.0, (eq_iff x.object.metadata.name name).0 named)
        | inr other ↦ let lost : none ≡ some ev = rw other at here in absurd (cc lost)
      ]
  | inr (later, found) ↦
      let last : some later ≡ some ev = rw found at e in
      latest-IsOf ns name es ev h.1 (found ∙ last)
]

noted_by_click :
    (ix : Option Introspection) (api : String × String × ℤ → Result Json)
    (targets : List (String × ℤ)) (delta : ℤ) (s : UiSession)
    → (handle_scale ix api targets delta s).1
      ≡ (scale_guarded ix s.metadata.namespace s.metadata.name
          (pos (clamp (current_replicas s +ℤ delta)))
          targets).1
unfolding handle_scale
noted_by_click ix api targets delta s = refl

-- What is left of the target of a click after the events.
target_left :
    (ix : Option Introspection) (api : String × String × ℤ → Result Json)
    (targets : List (String × ℤ)) (delta : ℤ) (s : UiSession) (es : List SessionEvent)
    → can ix s.metadata.namespace scale ≡ true
    → IsOf s.metadata.namespace es
    → lookup
        (target_key s.metadata.namespace s.metadata.name)
        (replay_targets es (handle_scale ix api targets delta s).1)
      ≡ (if is_some (latest s.metadata.name es)
          then none
          else some (pos (clamp (current_replicas s +ℤ delta))))
target_left ix api targets delta s es allowed of_ns =
    let next = pos (clamp (current_replicas s +ℤ delta)) in
    let waits =
      target_waits_for_event ix s.metadata.namespace s.metadata.name next targets es allowed in
    rw (noted_by_click ix api targets delta s)
      (rw⁻¹ (mentions-latest s.metadata.namespace s.metadata.name es of_ns) waits.1)

-- A click on a scale button of a session that the table shows, by a user who may scale in its namespace,
-- whatever the server answers. After any events of that namespace, and before the list is fetched
-- again: without an event about the session its row shows the step that is under way, from its
-- count to the one that was asked for; after events about it, the row shows the session of the last
-- one, with its count and no step, or is gone if that event deletes.
pub scaled_row :
    (ix : Option Introspection) (api : String × String × ℤ → Result Json)
    (targets : List (String × ℤ)) (delta : ℤ) (s : UiSession) (rows : List UiSession)
    (es : List SessionEvent)
    → row rows s.metadata.name ≡ some s
    → can ix s.metadata.namespace scale ≡ true
    → IsOf s.metadata.namespace es
    → let noted = (handle_scale ix api targets delta s).1 in
      let next = pos (clamp (current_replicas s +ℤ delta)) in
      shown (replay_events es rows) (replay_targets es noted) s.metadata.name
      ≡ elim (latest s.metadata.name es) [
        | none ↦ some (s, replicas_toward (current_replicas s) (some next))
        | some ev ↦
            if ev.type == "DELETED"
            then none
            else some (ev.object, steady (current_replicas ev.object))
      ]
unfolding shown replicas_cell
scaled_row ix api targets delta s rows es there allowed of_ns =
    let name = s.metadata.name in
    let ns = s.metadata.namespace in
    let left = target_left ix api targets delta s es allowed of_ns in
    elim (Option-cases (latest name es)) [
      | inl missing ↦
          rw (shown, replay_latest es rows name, missing, there, replicas_cell, left, missing) refl
      | inr (ev, found) ↦ elim (Bool-cases (ev.type == "DELETED")) [
        | inl gone ↦ rw (shown, replay_latest es rows name, found, gone) refl
        | inr kept ↦
            let (of, named) = latest-IsOf ns name es ev of_ns found in
            rw
              (
                shown,
                replay_latest es rows name,
                found,
                kept,
                replicas_cell,
                of,
                named,
                left,
                found,
              )
              refl
      ]
    ]
