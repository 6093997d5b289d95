-- ===== src/Sessions/Stream/Refines.antt =====
-- The stream on texts and unchecked values against Sessions.apply_event and Sessions.clear_target, which
-- read typed events.
use codespace_operator.Prelude.{
  ℕ, zero, suc, String, ◌≡◌, refl, ap, ◌∙◌, Bool, true, not, Option, none, some, List, [], ◌∷◌, map,
  ◌==◌, if◌then◌else◌, filter, Bool-cases, Option-cases, inl, inr, All,
}
use codespace_operator.Prelude.Int.{ℤ}
use codespace_operator.Js.Json.{Json, str, stringify, to_text}
use codespace_operator.Js.Value.{
  Value, Throws, returns, Engine, template, has_no_text, strict_equal, filter_throws,
  find_index_throws,
}
use codespace_operator.Client.Actions.{Platform}
use codespace_operator.Types.Session.{UiSession, SessionEvent}
use codespace_operator.Sessions.{has_name, find_index, set, apply_event, clear_target}
use codespace_operator.Sessions.Replay.{replay_events}
use codespace_operator.Sessions.Targets.{replay_targets}
use codespace_operator.Sessions.Stream.{
  name_of, is_named_by, is_other, replaced, update_rows, update_targets, Page, message, is_open,
  live_step, step, run, received, updated, both,
}
use codespace_operator.Sessions.Stream.Encoding.{
  session_json, event_json, read-type, read-object, read-metadata, read-namespace, read-name,
}

-- The rows as the values that the hook holds.
abbrev pub row_value : UiSession → Value
row_value x = some (session_json x)

abbrev pub row_values : List UiSession → List Value
row_values rows = map row_value rows

pub filter_throws-map :
    (test : Value → Throws Bool) (p : UiSession → Bool) (rows : List UiSession)
    → ((x : UiSession) → test (row_value x) ≡ returns (p x))
    → filter_throws test (row_values rows) ≡ returns (row_values (filter p rows))
unfolding filter_throws filter
filter_throws-map test p [] h = refl
filter_throws-map test p (x ∷ xs) h = elim (Bool-cases (p x)) [
  | inl e ↦ rw (h x, filter_throws-map test p xs h, e) refl
  | inr e ↦ rw (h x, filter_throws-map test p xs h, e) refl
]

pub find_index_throws-map :
    (test : Value → Throws Bool) (p : UiSession → Bool) (rows : List UiSession)
    → ((x : UiSession) → test (row_value x) ≡ returns (p x))
    → find_index_throws test (row_values rows) ≡ returns (find_index p rows)
unfolding find_index_throws find_index
find_index_throws-map test p [] h = refl
find_index_throws-map test p (x ∷ xs) h = elim (Bool-cases (p x)) [
  | inl e ↦ rw (h x, e) refl
  | inr e ↦ elim (Option-cases (find_index p xs)) [
    | inl missing ↦ rw (h x, e, find_index_throws-map test p xs h, missing) refl
    | inr (i, found) ↦ rw (h x, e, find_index_throws-map test p xs h, found) refl
  ]
]

row_values-set :
    (rows : List UiSession) (i : ℕ) (x : UiSession)
    → set (row_values rows) i (row_value x) ≡ row_values (set rows i x)
unfolding set
row_values-set [] i x = refl
row_values-set (y ∷ ys) zero x = refl
row_values-set (y ∷ ys) (suc i) x = rw (row_values-set ys i x) refl

module _ (engine : Engine) where
  pub name_of-row :
      (x : UiSession) → name_of engine (row_value x) ≡ returns (some (str x.metadata.name))
  unfolding name_of
  name_of-row x = rw (read-metadata engine x) (read-name engine x.metadata)

  is_named_by-row :
      (ev : SessionEvent) (x : UiSession)
      → is_named_by engine (some (event_json ev)) (row_value x)
        ≡ returns (has_name ev.object.metadata.name x)
  unfolding is_named_by strict_equal
  is_named_by-row ev x = rw (name_of-row x, read-object engine ev, name_of-row ev.object) refl

  is_other-row :
      (ev : SessionEvent) (x : UiSession)
      → is_other engine (some (event_json ev)) (row_value x)
        ≡ returns (not (has_name ev.object.metadata.name x))
  unfolding is_other
  is_other-row ev x = rw (is_named_by-row ev x) refl

  -- On the values of typed rows, an event that is typed never throws, and leaves the values of the
  -- rows that the typed update leaves.
  update_rows-typed :
      (ev : SessionEvent) (rows : List UiSession)
      → update_rows engine (some (event_json ev)) (row_values rows)
        ≡ returns (row_values (apply_event ev rows))
  unfolding update_rows replaced apply_event strict_equal
  update_rows-typed ev rows = elim (Bool-cases (ev.type == "DELETED")) [
    | inl e ↦
        rw (read-type engine ev, e)
          (filter_throws-map (is_other engine (some (event_json ev))) _ rows (is_other-row ev))
    | inr e ↦
        rw
          (
            read-type engine ev,
            e,
            find_index_throws-map (is_named_by engine (some (event_json ev)))
                (has_name ev.object.metadata.name) rows (is_named_by-row ev),
            read-object engine ev,
          )
          (elim (Option-cases (find_index (has_name ev.object.metadata.name) rows)) [
            | inl missing ↦ rw missing refl
            | inr (i, found) ↦ rw (found, row_values-set rows i ev.object) refl
          ])
  ]

  template-str : (s : String) → template engine (some (str s)) ≡ returns s
  unfolding template has_no_text to_text
  template-str s = refl

  update_targets-typed :
      (ev : SessionEvent) (p : List (String × ℤ))
      → update_targets engine (some (event_json ev)) p ≡ returns (clear_target ev p)
  unfolding update_targets clear_target to_text
  update_targets-typed ev p =
      rw
        (
          read-object engine ev,
          read-metadata engine ev.object,
          read-namespace engine ev.object.metadata,
          template-str ev.object.metadata.namespace,
          read-name engine ev.object.metadata,
          template-str ev.object.metadata.name,
        )
        refl

updated-typed :
    (p : Platform) (engine : Engine) (parse : String → Option Json) (ev : SessionEvent)
    (rows : List UiSession) (s : Page)
    → s.rows ≡ row_values rows
    → updated p engine parse (some (event_json ev)) s
      ≡ record s { rows = row_values (apply_event ev rows); targets = clear_target ev s.targets }
unfolding updated both
updated-typed p engine parse ev rows s shown =
    rw
      (
        shown,
        updated,
        both,
        update_rows-typed engine ev rows,
        update_targets-typed engine ev s.targets,
      )
      refl

pub step-received :
    (p : Platform) (engine : Engine) (parse : String → Option Json) (id : ℕ) (text : String)
    (s : Page)
    → s.crash ≡ none
    → is_open id s.connected ≡ true
    → step p engine parse (message id text) s ≡ received p engine parse text s
unfolding step live_step
step-received p engine parse id text s intact live =
    ap
      (λ c. elim c [
        | none ↦ if is_open id s.connected then received p engine parse text s else s
        | some _ ↦ s
      ])
      intact
    ∙ ap (λ b. if b then received p engine parse text s else s) live

-- What JSON.parse refuses is dropped, and what it reads goes to the updaters.
pub received_refused :
    (p : Platform) (engine : Engine) (parse : String → Option Json) (text : String) (s : Page)
    → parse text ≡ none
    → received p engine parse text s ≡ s
unfolding received
received_refused p engine parse text s refused = rw (received, refused) refl

pub received_read :
    (p : Platform) (engine : Engine) (parse : String → Option Json) (text : String) (s : Page)
    (v : Json)
    → parse text ≡ some v
    → received p engine parse text s ≡ updated p engine parse (some v) s
unfolding received
received_read p engine parse text s v parsed =
    ap (λ r. elim r [ none ↦ s | some w ↦ updated p engine parse (some w) s ]) parsed

-- On an open connection, the messages that carry typed events, in a text that JSON.parse reads back,
-- never take the page down: its rows are those of the typed updates in their order, its targets too,
-- and the rest of its state is as it was.
pub run-typed :
    (p : Platform) (engine : Engine) (parse : String → Option Json) (id : ℕ)
    (es : List SessionEvent) (rows : List UiSession) (s : Page)
    → s.crash ≡ none
    → is_open id s.connected ≡ true
    → s.rows ≡ row_values rows
    → All (λ ev. parse (stringify (event_json ev)) ≡ some (event_json ev)) es
    → run p engine parse (map (λ ev. message id (stringify (event_json ev))) es) s ≡ record s {
      rows = row_values (replay_events es rows);
      targets = replay_targets es s.targets;
    }
unfolding run replay_events replay_targets
run-typed p engine parse id [] rows s intact live shown read_back =
    ap (λ values. record s { rows = values }) shown
run-typed p engine parse id (ev ∷ es) rows s intact live shown read_back =
    let s' = record s {
      rows = row_values (apply_event ev rows);
      targets = clear_target ev s.targets;
    } in
    let text = stringify (event_json ev) in
    ap (run p engine parse (map (λ e. message id (stringify (event_json e))) es)) (
      step-received p engine parse id text s intact live
      ∙ received_read p engine parse text s (event_json ev) read_back.0
      ∙ updated-typed p engine parse ev rows s shown)
    ∙ run-typed p engine parse id es (apply_event ev rows) s' intact live refl read_back.1
