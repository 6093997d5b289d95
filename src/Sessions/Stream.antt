-- ===== src/Sessions/Stream.antt =====
-- ui/src/hooks/useSessions.ts, the stream as it comes in: the text of a message, the updaters that read
-- an event nobody has checked, and the connections. Sessions.apply_event reads typed events.
pub mod Encoding
pub mod Open
pub mod Refines
pub mod Broken
pub mod Updaters
pub mod Crash
pub mod Connections
pub mod Sound
use codespace_operator.Prelude.{
  ℕ, suc, String, Bool, true, false, not, Option, none, some, List, [], ◌∷◌, ◌++◌, if◌then◌else◌,
  lookup, without, insert, eqb, ◌||◌,
}
use codespace_operator.Prelude.Int.{ℤ}
use codespace_operator.Js.Json.{Json, str}
use codespace_operator.Js.Value.{
  Value, Thrown, Throws, returns, throws, ◌>>=◌, Engine, read, strict_equal, template,
  filter_throws, find_index_throws,
}
use codespace_operator.Client.Actions.{Platform}
use codespace_operator.Client.Calls
use codespace_operator.Sessions.{set, target_key}

module _ (engine : Engine) where
  -- `x.metadata.name`
  unfoldable pub name_of : Value → Throws Value
  name_of x = do m ← read engine "metadata" x; read engine "name" m

  -- `x.metadata.name === ev.object.metadata.name`
  unfoldable pub is_named_by : Value → Value → Throws Bool
  is_named_by ev x = do
    a ← name_of x
    o ← read engine "object" ev
    b ← name_of o
    returns (strict_equal a b)

  -- `x.metadata.name !== ev.object.metadata.name`
  unfoldable pub is_other : Value → Value → Throws Bool
  is_other ev x = do same ← is_named_by ev x; returns (not same)

  unfoldable pub replaced : Value → List Value → Throws (List Value)
  replaced ev rows = do
    i ← find_index_throws (is_named_by ev) rows
    o ← read engine "object" ev
    returns (elim i [ none ↦ o ∷ rows | some n ↦ set rows n o ])

  -- The updater of the rows.
  unfoldable pub update_rows : Value → List Value → Throws (List Value)
  update_rows ev rows = do
    t ← read engine "type" ev
    (if strict_equal t (some (str "DELETED"))
        then filter_throws (is_other ev) rows
        else replaced ev rows)

  -- The updater of the targets.
  unfoldable pub update_targets : Value → List (String × ℤ) → Throws (List (String × ℤ))
  update_targets ev p = do
    o ← read engine "object" ev
    m ← read engine "metadata" o
    ns ← read engine "namespace" m
    ns_text ← template engine ns
    n ← read engine "name" m
    n_text ← template engine n
    returns (elim (lookup (target_key ns_text n_text) p) [
      | none ↦ p
      | some _ ↦ without (target_key ns_text n_text) p
    ])

-- `close()` of the connection that a variable holds, on the numbers of those that are open.
unfoldable pub close : Option ℕ → List ℕ → List ℕ
close none cs = cs
close (some id) [] = []
close (some id) (c ∷ cs) = let rest = close (some id) cs in if eqb id c then rest else c ∷ rest

unfoldable pub is_open : ℕ → List ℕ → Bool
is_open id [] = false
is_open id (c ∷ cs) = eqb id c || is_open id cs

-- The state of the hook, the connections opened so far with `connected` the numbers of those that are not
-- closed, `es_ref` the one that esRef.current holds and `cleanup` the one that the cleanup of the last
-- run closes, and what an updater threw while React rendered, after which the page is gone. What the
-- drawing of the rows may throw is no part of it.
pub record Page : Type 0 where
  pub rows : List Value
  pub targets : List (String × ℤ)
  pub opened : List Calls.Stream
  pub connected : List ℕ
  pub es_ref : Option ℕ
  pub cleanup : Option ℕ
  pub next : ℕ
  pub crash : Option Thrown

pub data Event : Type 0 where
  -- the effect runs, with the namespace and `enabled`, after the cleanup of its last run
  change : String → Bool → Event
  -- a message on the connection of that number
  message : ℕ → String → Event
  -- `scale` notes a target
  target : String → ℤ → Event
  unmount : Event

module _ (engine : Engine) where
  unfoldable pub both : Value → Page → Throws (List Value × List (String × ℤ))
  both ev s = do
    rows ← update_rows engine ev s.rows
    targets ← update_targets engine ev s.targets
    returns (rows, targets)

-- The cleanup of the last run of the effect.
unfoldable pub cleaned_up : Page → Page
cleaned_up s = record s { connected = close s.cleanup s.connected; cleanup = none }

module _ (p : Platform) (engine : Engine) (parse : String → Option Json) where
  -- The state after both updaters, or what they threw; the lost page is cleaned up.
  unfoldable pub updated : Value → Page → Page
  updated ev s = elim (both engine ev s) [
    | returns (rows, targets) ↦ record s { rows = rows; targets = targets }
    | throws e ↦ record (cleaned_up s) { crash = some e }
  ]

  -- `onmessage`: a text that JSON.parse refuses is dropped. The updaters run later, when React renders,
  -- where the `catch` does not reach.
  unfoldable pub received : String → Page → Page
  received text s = elim (parse text) [ none ↦ s | some ev ↦ updated (some ev) s ]

  -- A closed connection gives no message, and a page that is gone does nothing.
  unfoldable pub live_step : Event → Page → Page
  live_step (change effective enabled) s =
      let left = cleaned_up s in
      let opened = record left {
        opened = s.opened ++ Calls.watch p effective ∷ [];
        connected = s.next ∷ close s.es_ref left.connected;
        es_ref = some s.next;
        cleanup = some s.next;
        next = suc s.next;
      } in
      if enabled then opened else left
  live_step (message id text) s = if is_open id s.connected then received text s else s
  live_step (target key n) s = record s { targets = insert key n s.targets }
  live_step unmount s = cleaned_up s

  unfoldable pub step : Event → Page → Page
  step e s = elim s.crash [ none ↦ live_step e s | some _ ↦ s ]

  unfoldable pub run : List Event → Page → Page
  run [] s = s
  run (e ∷ es) s = run es (step e s)
