-- ===== src/Sessions/Targets.antt =====
-- ui/src/hooks/useSessions.ts: the replica targets over a whole stream. `scale` notes a target before
-- the request, and the handler of an event clears the target of its session.
use codespace_operator.Prelude.{
  String, ◌≡◌, ◌≢◌, refl, ◌∙◌, Bool, true, false, ◌||◌, eq_refl, Option, none, some, List, [], ◌∷◌,
  arith, ◌==◌, eq_iff, if◌then◌else◌, lookup, insert, lookup-insert,
}
use codespace_operator.Prelude.Int.{ℤ}
use codespace_operator.Js.Result.{ok}
use codespace_operator.Types.Session.{SessionEvent}
use codespace_operator.Types.Introspection.{Introspection, scale}
use codespace_operator.Cap.{can}
use codespace_operator.Sessions.{clear_target, event_key, target_key, scale_guarded}
use codespace_operator.Sessions.Rows.{lookup-clear_target}

unfoldable pub replay_targets : List SessionEvent → List (String × ℤ) → List (String × ℤ)
replay_targets [] p = p
replay_targets (ev ∷ es) p = replay_targets es (clear_target ev p)

-- Some event is about the session of a key.
unfoldable pub mentions : String → List SessionEvent → Bool
mentions key [] = false
mentions key (ev ∷ es) = event_key ev == key || mentions key es

lookup-replay_targets :
    (es : List SessionEvent) (p : List (String × ℤ)) (key : String)
    → lookup key (replay_targets es p) ≡ (if mentions key es then none else lookup key p)
unfolding replay_targets mentions
lookup-replay_targets [] p key = refl
lookup-replay_targets (ev ∷ es) p key =
    lookup-replay_targets es (clear_target ev p) key
    ∙ ground (arith, lookup-clear_target ev p key, eq_iff (event_key ev) key)

-- An allowed scale notes its target, and after any events of the stream that target is still there
-- exactly if none of them was about the session; the answer to the request has no part in it. The
-- targets of all other sessions are what the events leave of those that were there before.
pub target_waits_for_event :
    (ix : Option Introspection) (ns name : String) (replicas : ℤ) (targets : List (String × ℤ))
    (es : List SessionEvent)
    → can ix ns scale ≡ true
    → let (sent, noted) = scale_guarded ix ns name replicas targets in
      (sent ≡ ok (ns, name, replicas))
      × (lookup (target_key ns name) (replay_targets es noted)
          ≡ (if mentions (target_key ns name) es then none else some replicas))
      × ((key : String)
          → key ≢ target_key ns name
          → lookup key (replay_targets es noted) ≡ lookup key (replay_targets es targets))
unfolding scale_guarded
target_waits_for_event ix ns name replicas targets es allowed =
    let k = target_key ns name in
    rw allowed (
      refl,
      lookup-replay_targets es (insert k replicas targets) k
          ∙ ground (arith, lookup-insert k k replicas targets, eq_refl k),
      λ key other.
          lookup-replay_targets es (insert k replicas targets) key
          ∙ ground (
            arith,
            lookup-insert k key replicas targets,
            lookup-replay_targets es targets key,
            eq_iff k key,
          ),
    )
