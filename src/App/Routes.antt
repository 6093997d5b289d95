-- ===== src/App/Routes.antt =====
-- ui/src/App.tsx: the routes, with the gate before the protected ones and the way back after a sign-in,
-- and the frame around the pages. `is_at pattern path` is the matching of react-router for the pattern
-- of a route without parameters.
pub mod Laws
use codespace_operator.Prelude.{
  ℕ, zero, suc, String, ◌≡◌, Bool, true, false, Option, none, some, List, [], ◌∷◌, In,
  if◌then◌else◌,
}
use codespace_operator.App.{Gate, waiting, to_login, content, require_auth, after_login}

pub data Page : Type 0 where
  sessions user_info cluster_settings : Page

-- The element of a route.
pub data Element : Type 0 where
  login_route : Element
  -- within RequireAuth and AppChrome: a page, or the redirect of the index
  protected : Page → Element
  protected_index : Element
  -- the fallback, which redirects
  fallback : Element

abbrev pub patterns : List String
patterns = "/login" ∷ "/sessions" ∷ "/user-info" ∷ "/info" ∷ "/" ∷ []

-- Where the browser is: the path, and where RequireAuth sent the user from.
pub record Location : Type 0 where
  pub pathname : String
  pub from : Option String

-- What is on the screen, or a <Navigate replace>.
pub data Screen : Type 0 where
  spinner login : Screen
  page : Page → Screen
  redirect : Location → Screen

abbrev pub sessions_location : Location
sessions_location = record { pathname = "/sessions"; from = none }

abbrev pub behind_gate : Gate → Screen → Screen
behind_gate waiting shown = spinner
behind_gate (to_login location) shown =
    redirect (record { pathname = "/login"; from = some location })
behind_gate content shown = shown

module _ (is_at : String → String → Bool) where
  unfoldable pub route : String → Element
  route path =
      if is_at "/login" path
      then login_route
      else if is_at "/sessions" path
      then protected sessions
      else if is_at "/user-info" path
      then protected user_info
      else if is_at "/info" path
      then protected cluster_settings
      else if is_at "/" path
      then protected_index
      else fallback

  -- What one render shows to a visitor, by the state of the gate's hook.
  unfoldable pub render : Bool → Bool → Location → Screen
  render is_authenticated is_loading l =
      let gate = require_auth is_authenticated is_loading l.pathname in
      elim (route l.pathname) [
        | login_route ↦ login
        | protected p ↦ behind_gate gate (page p)
        | protected_index ↦ behind_gate gate (redirect sessions_location)
        | fallback ↦ redirect sessions_location
      ]

  -- The screen that is left after at most so many redirects, and where it stands.
  unfoldable pub visit : ℕ → Bool → Bool → Location → Option (Screen × Location)
  visit zero is_authenticated is_loading l = elim (render is_authenticated is_loading l) [
    | redirect _ ↦ none
    | spinner ↦ some (spinner, l)
    | login ↦ some (login, l)
    | page p ↦ some (page p, l)
  ]
  visit (suc redirects) is_authenticated is_loading l =
      elim (render is_authenticated is_loading l) [
        | redirect next ↦ visit redirects is_authenticated is_loading next
        | spinner ↦ some (spinner, l)
        | login ↦ some (login, l)
        | page p ↦ some (page p, l)
      ]

-- `onLoggedIn` of the login route
unfoldable pub logged_in : Location → Location
logged_in l = record { pathname = after_login l.from; from = none }

-- What react-router documents of the patterns of this table: a pattern matches its own path, and no path
-- is matched by two of them.
pub record IsMatcher (is_at : String → String → Bool) : Type 0 where
  pub itself : (pattern : String) → In pattern patterns → is_at pattern pattern ≡ true
  pub alone :
      (pattern pattern' path : String)
      → In pattern patterns
      → In pattern' patterns
      → is_at pattern path ≡ true
      → is_at pattern' path ≡ true
      → pattern ≡ pattern'

-- The sidebar of AppChrome: its groups of links, each a title with a path.
abbrev pub links : List (String × List (String × String))
links =
    ("Sessions", ("Sessions", "/sessions") ∷ [])
    ∷ ("Management", ("User Management", "/user-info") ∷ ("Cluster Settings", "/info") ∷ [])
    ∷ []

-- The width and the links, where somebody is signed in.
unfoldable pub sidebar : Bool → Bool → Option (String × List (String × List (String × String)))
sidebar is_authenticated is_open =
    if is_authenticated then some (if is_open then "250px" else "0", links) else none
