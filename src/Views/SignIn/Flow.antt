-- ===== src/Views/SignIn/Flow.antt =====
-- The sign-in as a whole: `onLocalSubmit` of ui/src/pages/LoginPage.tsx with the hook of
-- ui/src/hooks/useAuth.ts, and where the routes of ui/src/App.tsx lead after it.
use codespace_operator.Prelude.{
  String, ◌≡◌, ◌≢◌, refl, ◌∙◌, ap, Bool, true, false, Option, none, some, arith, lookup, eq_iff,
  ◌==◌, if◌then◌else◌,
}
use codespace_operator.Js.Json.{Json, null, str, get, truthy}
use codespace_operator.Js.Result.{Result, ok, err}
use codespace_operator.Client.{user_key}
use codespace_operator.Client.Calls
use codespace_operator.Client.Actions.{Platform, World}
use codespace_operator.Fetching.{message_or}
use codespace_operator.Sessions.{or_text}
use codespace_operator.Auth.{
  Auth, initial, or_nullish, display_name, login_password, login_message, restore, restored,
  sso_url, is_authenticated,
}
use codespace_operator.Auth.Laws.{login_success, login_failure}
use codespace_operator.App.{after_login}
use codespace_operator.Auth.Components.{gate_let_in}
use codespace_operator.App.Routes.{
  Page as AppPage, Location, login, spinner, page, protected, route, visit, logged_in, IsMatcher,
}
use codespace_operator.App.Routes.Laws.{sign_in_at, visit_element}
use codespace_operator.Views.SignIn.{Page, submitted, succeeded, failed, step}

pub record Outcome : Type 0 where
  pub shown : Page
  pub auth : Auth
  pub world : World
  -- where `onLoggedIn` navigates, if it is called
  pub to : Option Location

abbrev finish : Location → Page → Result (Unit {0}) × Auth × World → Outcome
finish l shown (ok _, a, w) = record {
  shown = step succeeded shown;
  auth = a;
  world = w;
  to = some (logged_in l);
}
finish l shown (err message, a, w) = record {
  shown = step (failed message) shown;
  auth = a;
  world = w;
  to = none;
}

module _ (p : Platform) (to_lower_case : String → String) where
  unfoldable pub submit_credentials : Location → Page → Auth → World → Outcome
  submit_credentials l shown a w =
      finish l (step submitted shown)
        (login_password p to_lower_case shown.username shown.password a w)

finish_ok :
    (l : Location) (shown : Page) (s : Result (Unit {0}) × Auth × World)
    → s.0 ≡ ok tt
    → ((finish l shown s).to ≡ some (logged_in l))
      × ((finish l shown s).shown ≡ step succeeded shown)
finish_ok l shown (ok _, a, w) e = (refl, refl)
finish_ok l shown (err message, a, w) e = cc e

finish_err :
    (l : Location) (shown : Page) (s : Result (Unit {0}) × Auth × World) (message : String)
    → s.0 ≡ err message
    → ((finish l shown s).to ≡ none)
      × ((finish l shown s).auth ≡ s.1)
      × ((finish l shown s).shown ≡ step (failed message) shown)
finish_err l shown (ok _, a, w) message e = cc e
finish_err l shown (err m, a, w) message e = (refl, refl, cc e)

-- None of the messages of a failed sign-in is empty.
worded :
    (locked expired : Bool) (s : String)
    → (s == "") ≡ false
    → ((if locked
          then "Account is locked. Contact your administrator."
          else if expired
          then "Password has expired. Please contact your administrator."
          else s)
        == "")
      ≡ false
worded true expired s h = refl
worded false true s h = refl
worded false false s h = h

given_or_default :
    (empty : Bool) (message : String)
    → (message == "") ≡ empty
    → ((if empty then "Authentication failed" else message) == "") ≡ false
given_or_default true message h = refl
given_or_default false message h = h

message_or-of_named : (s : String) → (s == "") ≡ false → message_or s "Login failed" ≡ s
message_or-of_named s h = rw h refl

login_message_shown :
    (p : Platform) (to_lower_case : String → String) (message : String)
    → message_or (login_message p to_lower_case message) "Login failed"
      ≡ login_message p to_lower_case message
login_message_shown p to_lower_case message =
    message_or-of_named (login_message p to_lower_case message)
      (worded _ _ _ (given_or_default (message == "") message refl))

-- The way back from the sign-in page.
back :
    (path : String)
    → path ≢ ""
    → logged_in (sign_in_at path) ≡ record { pathname = path; from = none }
unfolding logged_in after_login
back path named = ground (arith, named, eq_iff path "")

-- `onSSOClick`: where the browser is sent, with the path to come back to
unfoldable pub sso_click : Platform → (String → String) → Location → String
sso_click p to_lower_case l = sso_url p to_lower_case (some (or_text l.from "/sessions"))

module _ (p : Platform) (to_lower_case : String → String) where
  -- The effect of a gate, when the server does not say who is signed in.
  gate_shut :
      (a : Auth) (w : World) (message : String)
      → (Calls.get_current_user p w).0 ≡ err message
      → let gate = (restore p to_lower_case false a w).0 in
        (is_authenticated gate ≡ false) × (gate.is_loading ≡ false)
  unfolding restore restored is_authenticated truthy
  gate_shut a w message e = rw e (refl, refl)

module _ (p : Platform) (to_lower_case : String → String) (is_at : String → String → Bool)
    (matcher : IsMatcher is_at) where
  -- Whoever asks for a page whose session the server refuses, for whatever reason, ends on the sign-in
  -- page, which knows the path that was asked for, even where a name was still stored.
  refused_session :
      (stored : Option String) (w : World) (message path : String) (q : AppPage)
      → (Calls.get_current_user p w).0 ≡ err message
      → route is_at path ≡ protected q
      → let asked : Location = record { pathname = path; from = none } in
        let gate = (restore p to_lower_case false (initial stored) w).0 in
        visit is_at 2 (is_authenticated gate) gate.is_loading asked ≡ some (login, sign_in_at path)
  refused_session stored w message path q e there =
      let (out, ready) = gate_shut p to_lower_case (initial stored) w message e in
      rw (out, ready)
        (visit_element is_at matcher (protected q) false false
          (record { pathname = path; from = none }) there)

  -- A sign-in from the page that a refused visitor of a page is left on. When the server accepts
  -- the password with an answer that gives a name, and then says under a name who is signed in, the
  -- form goes to the path that was asked for, if it is not empty: the gate there waits, and then
  -- shows the page of that path.
  pub sign_in_flow :
      (shown : Page) (a : Auth) (w : World) (v u : Json) (path : String) (q : AppPage)
      → (Calls.local_login p shown.username shown.password w).0 ≡ ok v
      → v ≢ null
      → truthy (or_nullish (get v "user") (str shown.username)) ≡ true
      → route is_at path ≡ protected q
      → path ≢ ""
      → (Calls.get_current_user p
          (submit_credentials p to_lower_case (sign_in_at path) shown a w).world).0
        ≡ ok u
      → truthy (display_name u) ≡ true
      → let out = submit_credentials p to_lower_case (sign_in_at path) shown a w in
        let asked : Location = record { pathname = path; from = none } in
        let gate = initial (lookup user_key out.world.storage) in
        let known = (restore p to_lower_case false gate out.world).0 in
        (out.to ≡ some asked)
        × (out.shown.busy ≡ false)
        × (out.shown.error ≡ none)
        × (visit is_at 2 (is_authenticated gate) gate.is_loading asked ≡ some (spinner, asked))
        × (visit is_at 2 (is_authenticated known) known.is_loading asked ≡ some (page q, asked))
  unfolding initial submit_credentials step
  sign_in_flow shown a w v u path q accepted n t there named known_user display =
      let out = submit_credentials p to_lower_case (sign_in_at path) shown a w in
      let asked : Location = record { pathname = path; from = none } in
      let gate = initial (lookup user_key out.world.storage) in
      let entered =
        login_success p to_lower_case shown.username shown.password v a w accepted n t in
      let done =
        finish_ok (sign_in_at path) (step submitted shown)
          (login_password p to_lower_case shown.username shown.password a w) entered.0 in
      let (let_in, ready) = gate_let_in p to_lower_case gate out.world u known_user display in
      (
        done.0 ∙ ap (λ (l : Location). some l) (back path named),
        ap (λ (s : Page). s.busy) done.1,
        ap (λ (s : Page). s.error) done.1,
        visit_element is_at matcher (protected q) (is_authenticated gate) true asked there,
        rw (let_in, ready) (visit_element is_at matcher (protected q) true false asked there),
      )

-- When the request of the sign-in fails the form navigates nowhere and the state of its hook stays
-- as it was: the page shows why, in the words of the hook, and its form can be sent again.
sign_in_fails :
    (p : Platform) (to_lower_case : String → String) (l : Location) (shown : Page) (a : Auth)
    (w : World) (message : String)
    → (Calls.local_login p shown.username shown.password w).0 ≡ err message
    → let out = submit_credentials p to_lower_case l shown a w in
      (out.to ≡ none)
      × (out.auth ≡ a)
      × (out.shown.busy ≡ false)
      × (out.shown.error ≡ some (login_message p to_lower_case message))
unfolding submit_credentials step
sign_in_fails p to_lower_case l shown a w message refused =
    let (same, thrown) =
      login_failure p to_lower_case shown.username shown.password message a w refused in
    let done =
      finish_err l (step submitted shown)
        (login_password p to_lower_case shown.username shown.password a w)
        (login_message p to_lower_case message) thrown in
    (
      done.0,
      done.1 ∙ same,
      ap (λ (s : Page). s.busy) done.2,
      ap (λ (s : Page). s.error) done.2
          ∙ ap (λ (m : String). some m) (login_message_shown p to_lower_case message),
    )
