-- ===== src/Sessions/Stream/Sound.antt =====
-- The invariant of the connections of the stream, with their URLs against the generated description of
-- the API.
use codespace_operator.Prelude.{
  suc, String, ◌≡◌, refl, ap, ◌∙◌, true, false, Option, none, some, List, [], ◌∷◌, ◌++◌, arith,
  Bool-cases, Option-cases, inl, inr, All, length,
}
use codespace_operator.Js.Json.{Json}
use codespace_operator.Js.Value.{Engine, Thrown}
use codespace_operator.Client.Actions.{Platform}
use codespace_operator.Client.Calls
use codespace_operator.Contract.Streams.{IsStream, watch-IsStream}
use codespace_operator.Sessions.Stream.Open.{IsSingle, close_nil, cleaned_up-IsSingle}
use codespace_operator.Sessions.Stream.{
  Page, Event, change, message, target, unmount, is_open, cleaned_up, both, updated, received,
  live_step, step, run,
}
use codespace_operator.Sessions.Stream.Refines.{received_refused, received_read}
use codespace_operator.Sessions.Stream.Crash.{
  updated-throws, updated-returns, step_gone, step_intact,
}
use codespace_operator.Sessions.Stream.Connections.{Throws-cases}

-- At most one of the connections opened so far is open, and the cleanup closes it; none is on a page that
-- is gone; and every connection is a stream of the description.
pub record IsSound (base : String) (s : Page) : Type 0 where
  pub counted : length s.opened ≡ s.next
  pub single : IsSingle s
  pub silenced : (e : Thrown) → s.crash ≡ some e → s.connected ≡ []
  pub streams : All (IsStream base) s.opened

length-snoc : {A : Type 0} (x : A) (xs : List A) → length (xs ++ x ∷ []) ≡ suc (length xs)
length-snoc x [] = refl
length-snoc x (y ∷ ys) = ap suc (length-snoc x ys)

All-snoc :
    {A : Type 0} (P : A → Type 0) (x : A) (xs : List A) → All P xs → P x → All P (xs ++ x ∷ [])
All-snoc P x [] h px = (px, tt)
All-snoc P x (y ∷ ys) h px = (h.0, All-snoc P x ys h.1 px)

module _ (p : Platform) (engine : Engine) (parse : String → Option Json) where
  updated-IsSound :
      (v : Json) (s : Page) → IsSound p.base s → IsSound p.base (updated p engine parse (some v) s)
  unfolding cleaned_up
  updated-IsSound v s h = elim (Throws-cases (both engine (some v) s)) [
    | inl (r, kept) ↦ rw (updated-returns p engine parse v s r kept) (record {
      counted = h.counted;
      single = h.single;
      silenced = h.silenced;
      streams = h.streams;
    })
    | inr (e, lost) ↦ rw (updated-throws p engine parse v s e lost) (record {
      counted = h.counted;
      single = inl (cleaned_up-IsSingle s h.single);
      silenced = λ d c. cleaned_up-IsSingle s h.single;
      streams = h.streams;
    })
  ]

  received-IsSound :
      (text : String) (s : Page)
      → IsSound p.base s
      → IsSound p.base (received p engine parse text s)
  received-IsSound text s h = elim (Option-cases (parse text)) [
    | inl refused ↦ rw (received_refused p engine parse text s refused) h
    | inr (v, parsed) ↦ rw (received_read p engine parse text s v parsed) (updated-IsSound v s h)
  ]

  live_step-IsSound :
      (e : Event) (s : Page)
      → s.crash ≡ none
      → IsSound p.base s
      → IsSound p.base (live_step p engine parse e s)
  unfolding live_step cleaned_up
  live_step-IsSound (change effective true) s intact h = record {
    counted = length-snoc (Calls.watch p effective) s.opened ∙ ap suc h.counted;
    single =
        inr
          (s.next, rw (cleaned_up-IsSingle s h.single, close_nil s.es_ref) refl, refl, omega arith);
    silenced = λ e c. cc (intact, c);
    streams =
        All-snoc (IsStream p.base) (Calls.watch p effective) s.opened h.streams
          (watch-IsStream p effective);
  }
  live_step-IsSound (change effective false) s intact h = record {
    counted = h.counted;
    single = inl (cleaned_up-IsSingle s h.single);
    silenced = λ e c. cleaned_up-IsSingle s h.single;
    streams = h.streams;
  }
  live_step-IsSound (message id text) s intact h = elim (Bool-cases (is_open id s.connected)) [
    | inl e ↦ rw e (received-IsSound text s h)
    | inr e ↦ rw e h
  ]
  live_step-IsSound (target key n) s intact h = record {
    counted = h.counted;
    single = h.single;
    silenced = h.silenced;
    streams = h.streams;
  }
  live_step-IsSound unmount s intact h = record {
    counted = h.counted;
    single = inl (cleaned_up-IsSingle s h.single);
    silenced = λ e c. cleaned_up-IsSingle s h.single;
    streams = h.streams;
  }

  -- Any events keep a sound page sound: at most one of the connections opened so far is open, and the
  -- cleanup closes it; none is once the page is gone; and each is a stream of the description with the
  -- cookie.
  pub run-IsSound :
      (es : List Event) (s : Page) → IsSound p.base s → IsSound p.base (run p engine parse es s)
  unfolding run
  run-IsSound [] s h = h
  run-IsSound (e ∷ es) s h = elim (Option-cases s.crash) [
    | inl intact ↦
        run-IsSound es (step p engine parse e s)
          (rw (step_intact p engine parse e s intact) (live_step-IsSound e s intact h))
    | inr (lost, gone) ↦
        run-IsSound es (step p engine parse e s) (rw (step_gone p engine parse e s lost gone) h)
  ]
