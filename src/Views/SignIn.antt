-- ===== src/Views/SignIn.antt =====
-- ui/src/pages/LoginPage.tsx: the state of the page, its events and what it shows. What the sign-in
-- itself does is in Auth.antt.
pub mod Laws
pub mod Flow
use codespace_operator.Prelude.{
  String, Bool, true, false, not, ◌&&◌, ◌||◌, Option, none, some, List, [], ◌∷◌, ◌==◌,
  if◌then◌else◌,
}
use codespace_operator.Types.Create.{AuthFeatures}
use codespace_operator.Cap.{is_true}
use codespace_operator.Fetching.{message_or}

pub record Page : Type 0 where
  pub features : Option AuthFeatures
  pub username : String
  pub password : String
  pub error : Option String
  pub busy : Bool

abbrev pub initial_page : Page
initial_page = record { features = none; username = ""; password = ""; error = none; busy = false }

pub data Event : Type 0 where
  -- the answer of the features, or none where the request failed
  loaded : Option AuthFeatures → Event
  name_typed password_typed : String → Event
  submitted succeeded : Event
  failed : String → Event

-- The effect on mount, the two fields and the three parts of `onLocalSubmit`.
unfoldable pub step : Event → Page → Page
step (loaded answer) p = record p { features = answer }
step (name_typed v) p = record p { username = v }
step (password_typed v) p = record p { password = v }
step submitted p = record p { busy = true; error = none }
step succeeded p = record p { busy = false }
step (failed message) p = record p {
  error = some (message_or message "Login failed");
  busy = false;
}

unfoldable pub run : List Event → Page → Page
run [] p = p
run (e ∷ es) p = run es (step e p)

pub record Methods : Type 0 where
  -- the alert "Authentication failed"
  pub error : Option String
  -- the alert "No authentication methods available"
  pub no_methods : Bool
  pub sso : Bool
  pub divider : Bool
  -- the form
  pub credentials : Bool
  pub is_primary : Bool
  pub is_submit_disabled : Bool
  pub submit_text : String

-- An error that is there and not empty.
abbrev shown_error : Option String → Option String
shown_error none = none
shown_error (some m) = if m == "" then none else some m

abbrev methods_of : Page → AuthFeatures → Methods
methods_of p f =
    let sso = is_true f.sso_enabled in
    let credentials = is_true f.local_login_enabled in
    record {
      error = shown_error p.error;
      no_methods = not sso && not credentials;
      sso = sso;
      divider = sso && credentials;
      credentials = credentials;
      is_primary = not sso;
      is_submit_disabled = p.busy || p.username == "" || p.password == "";
      submit_text = if p.busy then "Signing in..." else "Sign in with Credentials";
    }

-- None is the view "Loading...".
unfoldable pub view : Page → Option Methods
view p = elim p.features [ none ↦ none | some f ↦ some (methods_of p f) ]
