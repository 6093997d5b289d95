-- ===== src/Sessions/Stream/Connections.antt =====
-- The connections of the stream: a run of the effect closes the last one before it opens its own.
use codespace_operator.Prelude.{
  ℕ, ◌<◌, String, ◌≡◌, refl, ◌∙◌, Bool, true, false, Option, none, some, List, [], ◌∷◌, arith,
  Bool-cases, Option-cases, inl, inr, ◌⊎◌,
}
use codespace_operator.Js.Json.{Json}
use codespace_operator.Js.Value.{Engine, Thrown, Throws, returns, throws}
use codespace_operator.Client.Actions.{Platform}
use codespace_operator.Sessions.Stream.Open.{
  IsSingle, close_nil, cleaned_up-IsSingle, is_open-close,
}
use codespace_operator.Sessions.Stream.{
  Page, Event, change, message, target, unmount, close, is_open, cleaned_up, both, updated,
  received, live_step, step, run,
}
use codespace_operator.Sessions.Stream.Refines.{received_refused, received_read}
use codespace_operator.Sessions.Stream.Crash.{
  updated-throws, updated-returns, step_gone, step_intact,
}

-- A connection that was opened and is not open.
pub record IsClosed (id : ℕ) (s : Page) : Type 0 where
  pub opened : id < s.next
  pub left : is_open id s.connected ≡ false

-- The effect runs again, or the page is left.
abbrev pub closes : Event → Bool
closes (change effective enabled) = true
closes (message id text) = false
closes (target key n) = false
closes unmount = true

pub Throws-cases :
    {A : Type 0} (m : Throws A) → ((a : A) × (m ≡ returns a)) ⊎ ((e : Thrown) × (m ≡ throws e))
Throws-cases (returns a) = inl (a, refl)
Throws-cases (throws e) = inr (e, refl)

module _ (p : Platform) (engine : Engine) (parse : String → Option Json) where
  updated-IsClosed :
      (id : ℕ) (v : Json) (s : Page)
      → IsClosed id s
      → IsClosed id (updated p engine parse (some v) s)
  unfolding cleaned_up
  updated-IsClosed id v s h = elim (Throws-cases (both engine (some v) s)) [
    | inl (r, kept) ↦
        rw (updated-returns p engine parse v s r kept) (record { opened = h.opened; left = h.left })
    | inr (e, lost) ↦
        rw (updated-throws p engine parse v s e lost)
          (record { opened = h.opened; left = is_open-close id s.cleanup s.connected h.left })
  ]

  received-IsClosed :
      (id : ℕ) (text : String) (s : Page)
      → IsClosed id s
      → IsClosed id (received p engine parse text s)
  received-IsClosed id text s h = elim (Option-cases (parse text)) [
    | inl refused ↦ rw (received_refused p engine parse text s refused) h
    | inr (v, parsed) ↦
        rw (received_read p engine parse text s v parsed) (updated-IsClosed id v s h)
  ]

  live_step-IsClosed :
      (id : ℕ) (e : Event) (s : Page) → IsClosed id s → IsClosed id (live_step p engine parse e s)
  unfolding live_step is_open cleaned_up
  live_step-IsClosed id (change effective true) s h = record {
    opened = omega (arith, h.opened);
    left =
        let shut = is_open-close id s.cleanup s.connected h.left in
        let still = is_open-close id s.es_ref (close s.cleanup s.connected) shut in
        ground (arith, still, h.opened);
  }
  live_step-IsClosed id (change effective false) s h = record {
    opened = h.opened;
    left = is_open-close id s.cleanup s.connected h.left;
  }
  live_step-IsClosed id (message other text) s h = elim (Bool-cases (is_open other s.connected)) [
    | inl e ↦ rw e (received-IsClosed id text s h)
    | inr e ↦ rw e h
  ]
  live_step-IsClosed id (target key n) s h = record { opened = h.opened; left = h.left }
  live_step-IsClosed id unmount s h = record {
    opened = h.opened;
    left = is_open-close id s.cleanup s.connected h.left;
  }

  step-IsClosed :
      (id : ℕ) (e : Event) (s : Page) → IsClosed id s → IsClosed id (step p engine parse e s)
  unfolding step
  step-IsClosed id e s h = elim (Option-cases s.crash) [
    | inl intact ↦ rw (step_intact p engine parse e s intact) (live_step-IsClosed id e s h)
    | inr (lost, gone) ↦ rw (step_gone p engine parse e s lost gone) h
  ]

  run-IsClosed :
      (id : ℕ) (es : List Event) (s : Page) → IsClosed id s → IsClosed id (run p engine parse es s)
  unfolding run
  run-IsClosed id [] s h = h
  run-IsClosed id (e ∷ es) s h =
      run-IsClosed id es (step p engine parse e s) (step-IsClosed id e s h)

  live_closes :
      (id : ℕ) (e : Event) (s : Page)
      → IsSingle s
      → id < s.next
      → closes e ≡ true
      → IsClosed id (live_step p engine parse e s)
  unfolding live_step is_open cleaned_up
  live_closes id (change effective true) s single begun h = record {
    opened = omega (arith, begun);
    left = rw (cleaned_up-IsSingle s single, close_nil s.es_ref) (ground (arith, begun));
  }
  live_closes id (change effective false) s single begun h = record {
    opened = begun;
    left = rw (cleaned_up-IsSingle s single) refl;
  }
  live_closes id (message other text) s single begun h = cc h
  live_closes id (target key n) s single begun h = cc h
  live_closes id unmount s single begun h = record {
    opened = begun;
    left = rw (cleaned_up-IsSingle s single) refl;
  }

  unheard :
      (id : ℕ) (text : String) (s : Page)
      → IsClosed id s
      → step p engine parse (message id text) s ≡ s
  unfolding live_step
  unheard id text s h = elim (Option-cases s.crash) [
    | inl intact ↦ step_intact p engine parse (message id text) s intact ∙ rw h.left refl
    | inr (lost, gone) ↦ step_gone p engine parse (message id text) s lost gone
  ]

  -- On a page where at most the connection that the cleanup closes is open: once the effect has run
  -- again or the page is left, a message of a connection that was opened before changes nothing,
  -- whatever came in between.
  pub closed_connection_silent :
      (id : ℕ) (e : Event) (es : List Event) (text : String) (s : Page)
      → s.crash ≡ none
      → IsSingle s
      → id < s.next
      → closes e ≡ true
      → let t = run p engine parse (e ∷ es) s in step p engine parse (message id text) t ≡ t
  unfolding run
  closed_connection_silent id e es text s intact single begun h =
      let closed : IsClosed id (step p engine parse e s) =
        rw (step_intact p engine parse e s intact) (live_closes id e s single begun h) in
      unheard id text (run p engine parse (e ∷ es) s)
        (run-IsClosed id es (step p engine parse e s) closed)
