-- ===== src/Sessions/Stream/Crash.antt =====
-- Messages and the whole page: what an updater throws while React renders reaches
-- ui/src/ErrorBoundary.tsx. What the drawing of unchecked rows throws is not modelled.
use codespace_operator.Prelude.{
  ℕ, String, ◌≡◌, ◌≢◌, refl, sym, ap, ◌∙◌, Bool, true, false, Option, none, some, List, [], ◌∷◌,
  ◌==◌, if◌then◌else◌, Bool-cases, Option-cases, inl, inr, ◌↔◌,
}
use codespace_operator.Prelude.Int.{ℤ}
use codespace_operator.Js.Json.{Json}
use codespace_operator.Js.Value.{Value, Thrown, exception, returns, throws, Engine}
use codespace_operator.Client.Actions.{Platform}
use codespace_operator.Types.Session.{UiSession}
use codespace_operator.Sessions.Stream.{
  Page, Event, message, is_open, cleaned_up, both, updated, received, live_step, step, run,
}
use codespace_operator.Sessions.Stream.Refines.{
  row_values, step-received, received_refused, received_read,
}
use codespace_operator.Sessions.Stream.Open.{IsSingle, cleaned_up-IsSingle}
use codespace_operator.Sessions.Stream.Updaters.{both-returns, both-throws}
use codespace_operator.Sessions.Stream.Broken.{is_keyless}
use codespace_operator.Views.Boundary.{
  get_derived_state_from_error, render, is_set, error_text, error_boundary, mounted,
}

-- The message that takes the page down: one that JSON.parse reads, and not as an event about a session
-- with a key.
abbrev pub is_broken : Option Json → Bool
is_broken none = false
is_broken (some ev) = is_keyless ev

boundary_shows :
    (m : String)
    → let s = get_derived_state_from_error (exception "TypeError" m) in
      (mounted s ≡ error_boundary ∷ []) × (render s ≡ some (if m == "" then "TypeError" else m))
unfolding mounted render get_derived_state_from_error is_set error_text
boundary_shows m = (refl, refl)

module _ (p : Platform) (engine : Engine) (parse : String → Option Json) where
  pub updated-throws :
      (ev : Json) (s : Page) (e : Thrown)
      → both engine (some ev) s ≡ throws e
      → updated p engine parse (some ev) s ≡ record (cleaned_up s) { crash = some e }
  unfolding updated
  updated-throws ev s e lost =
      ap
        (λ b. elim b [
          | returns (rows, targets) ↦ record s { rows = rows; targets = targets }
          | throws d ↦ record (cleaned_up s) { crash = some d }
        ])
        lost

  pub updated-returns :
      (ev : Json) (s : Page) (r : List Value × List (String × ℤ))
      → both engine (some ev) s ≡ returns r
      → updated p engine parse (some ev) s ≡ record s { rows = r.0; targets = r.1 }
  unfolding updated
  updated-returns ev s r kept =
      ap
        (λ b. elim b [
          | returns (rows, targets) ↦ record s { rows = rows; targets = targets }
          | throws d ↦ record (cleaned_up s) { crash = some d }
        ])
        kept

  crash-received :
      (text : String) (rows : List UiSession) (s : Page)
      → s.crash ≡ none
      → s.rows ≡ row_values rows
      → ((received p engine parse text s).crash ≢ none) ↔ (is_broken (parse text) ≡ true)
  crash-received text rows s intact shown = elim (Option-cases (parse text)) [
    | inl refused ↦
        rw (received_refused p engine parse text s refused, refused)
          (λ n. absurd (n intact), λ e. cc e)
    | inr (ev, parsed) ↦ elim (Bool-cases (is_keyless ev)) [
      | inl missing ↦
          let (m, lost) = both-throws engine ev missing s in
          rw
            (
              received_read p engine parse text s ev parsed,
              parsed,
              updated-throws ev s (exception "TypeError" m) lost,
              missing,
            )
            (λ n. refl, λ e c. cc c)
      | inr present ↦
          let (r, kept) = both-returns engine ev present s rows shown in
          rw
            (
              received_read p engine parse text s ev parsed,
              parsed,
              updated-returns ev s r kept,
              present,
            )
            (λ n. absurd (n intact), λ e. cc e)
    ]
  ]

  received_broken :
      (text : String) (s : Page)
      → is_broken (parse text) ≡ true
      → (m : String) × (received p engine parse text s
          ≡ record (cleaned_up s) { crash = some (exception "TypeError" m) })
  received_broken text s broken = elim (Option-cases (parse text)) [
    | inl refused ↦ absurd (cc (broken, ap is_broken refused))
    | inr (ev, parsed) ↦
        let (m, lost) = both-throws engine ev (sym (ap is_broken parsed) ∙ broken) s in
        (
          m,
          received_read p engine parse text s ev parsed
              ∙ updated-throws ev s (exception "TypeError" m) lost,
        )
  ]

  pub step_gone :
      (e : Event) (s : Page) (lost : Thrown) → s.crash ≡ some lost → step p engine parse e s ≡ s
  unfolding step
  step_gone e s lost gone =
      ap (λ c. elim c [ none ↦ live_step p engine parse e s | some _ ↦ s ]) gone

  pub step_intact :
      (e : Event) (s : Page)
      → s.crash ≡ none
      → step p engine parse e s ≡ live_step p engine parse e s
  unfolding step
  step_intact e s intact =
      ap (λ c. elim c [ none ↦ live_step p engine parse e s | some _ ↦ s ]) intact

  run_gone :
      (es : List Event) (s : Page) (lost : Thrown)
      → s.crash ≡ some lost
      → run p engine parse es s ≡ s
  unfolding run
  run_gone [] s lost gone = refl
  run_gone (e ∷ es) s lost gone =
      ap (run p engine parse es) (step_gone e s lost gone) ∙ run_gone es s lost gone

  -- On a page with typed rows, a message on an open connection makes one of the two updaters throw
  -- exactly if JSON.parse reads it and what it reads is broken: there is nothing under
  -- `object.metadata`, or the namespace or the name there has no text. Only what JSON.parse refuses is
  -- caught. What the drawing of the rows throws after that is not part of it.
  pub message_crashes_iff :
      (id : ℕ) (text : String) (rows : List UiSession) (s : Page)
      → s.crash ≡ none
      → is_open id s.connected ≡ true
      → s.rows ≡ row_values rows
      → ((step p engine parse (message id text) s).crash ≢ none) ↔ (is_broken (parse text) ≡ true)
  message_crashes_iff id text rows s intact live shown =
      rw (step-received p engine parse id text s intact live)
        (crash-received text rows s intact shown)

  -- On a page where at most the connection that the cleanup closes is open: after a broken message on
  -- it, whatever the rows, the application is gone, whatever comes then. The boundary alone is on the
  -- page, with the text of a TypeError, and no connection is open.
  pub broken_message_is_final :
      (id : ℕ) (text : String) (es : List Event) (s : Page)
      → s.crash ≡ none
      → IsSingle s
      → is_open id s.connected ≡ true
      → is_broken (parse text) ≡ true
      → (m : String) × let e = exception "TypeError" m in
          let t = run p engine parse (message id text ∷ es) s in
          (t.crash ≡ some e)
          × (t.connected ≡ [])
          × (mounted (get_derived_state_from_error e) ≡ error_boundary ∷ [])
          × (render (get_derived_state_from_error e) ≡ some (if m == "" then "TypeError" else m))
  unfolding run
  broken_message_is_final id text es s intact single live broken =
      let (m, lost) = received_broken text s broken in
      let gone = record (cleaned_up s) { crash = some (exception "TypeError" m) } in
      let end =
        ap (run p engine parse es) (step-received p engine parse id text s intact live ∙ lost)
        ∙ run_gone es gone (exception "TypeError" m) refl in
      (
        m,
        (
          ap (λ (t : Page). t.crash) end,
          ap (λ (t : Page). t.connected) end ∙ cleaned_up-IsSingle s single,
          (boundary_shows m).0,
          (boundary_shows m).1,
        ),
      )
