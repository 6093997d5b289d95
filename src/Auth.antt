-- ===== src/Auth.antt =====
-- ui/src/hooks/useAuth.ts: the signed-in user of one component, over the API client. The state is that
-- of one call of the hook; localStorage is part of the client's world.
pub mod Laws
pub mod Components
pub mod Late
pub mod Tab
use Prim.Native.String.{◌++◌}
use codespace_operator.Prelude.{
  ℕ, String, Bool, true, false, not, ◌&&◌, ◌||◌, Option, none, some, List, [], ◌∷◌, ◌==◌,
  if◌then◌else◌, insert, without,
}
use codespace_operator.Js.Result.{Result, ok, err}
use codespace_operator.Js.Text.{includes_text}
use codespace_operator.Js.Uri.{query_text}
use codespace_operator.Js.Json.{Json, null, str, arr, elements, get, truthy, to_text}
use codespace_operator.Client.{user_key}
use codespace_operator.Client.Calls
use codespace_operator.Client.Actions.{World, Platform}

-- `user` is whatever the server sent; null where nobody is signed in.
pub record Auth : Type 0 where
  pub user : Json
  pub roles : List Json
  pub token : Option String
  pub is_loading : Bool

-- `localStorage.getItem(USER_KEY)` before the first render
unfoldable pub initial : Option String → Auth
initial stored = record {
  user = elim stored [ none ↦ null | some s ↦ str s ];
  roles = [];
  token = none;
  is_loading = true;
}

-- `x ?? y` of a property that may be missing or null
abbrev pub or_nullish : Option Json → Json → Json
or_nullish none other = other
or_nullish (some null) other = other
or_nullish (some v) other = v

unfoldable pub display_name : Json → Json
display_name v =
    or_nullish (get v "username") (or_nullish (get v "subject") (or_nullish (get v "sub") null))

-- `Array.isArray(xs) ? xs : []`
abbrev pub array_or_nil : Option Json → List Json
array_or_nil (some (arr vs)) = elements vs
array_or_nil _ = []

-- `if (display) localStorage.setItem(USER_KEY, display)`
unfoldable pub store_user : Json → World → World
store_user display w =
    if truthy display then record w { storage = insert user_key (to_text display) w.storage } else w

abbrev pub forget_user : World → World
forget_user w = record w { storage = without user_key w.storage }

module _ (p : Platform) (to_lower_case : String → String) where
  -- What the effect does once the answer is there; nothing if it was cancelled.
  unfoldable pub restored : Bool → Result Json → Auth → World → Auth × World
  restored true result a w = (a, w)
  restored false (ok v) a w = (
    record a {
      user = display_name v;
      roles = array_or_nil (get v "roles");
      token = none;
      is_loading = false;
    },
    store_user (display_name v) w,
  )
  restored false (err message) a w =
      let unauthorized =
        includes_text message "401" || includes_text (to_lower_case message) "unauthorized" in
      (
        record a { user = null; roles = []; token = none; is_loading = false },
        if unauthorized then forget_user w else w,
      )

  -- The effect, run to its end; `cancelled` tells whether it was cleaned up before the answer.
  unfoldable pub restore : Bool → Auth → World → Auth × World
  restore cancelled a w = let (r, w') = Calls.get_current_user p w in restored cancelled r a w'

  abbrev pub login_message : String → String
  login_message message =
      let shown = if message == "" then "Authentication failed" else message in
      if includes_text shown "account locked"
      then "Account is locked. Contact your administrator."
      else if includes_text shown "password expired"
      then "Password has expired. Please contact your administrator."
      else shown

  -- `data` null gives the user name, and then a TypeError when its roles are read.
  unfoldable pub logged_in : String → Result Json → Auth → World → Result (Unit {0}) × Auth × World
  logged_in username (err message) a w = (err (login_message message), a, w)
  logged_in username (ok null) a w = (
    err (login_message p.null_error),
    record a { user = str username },
    store_user (str username) w,
  )
  logged_in username (ok v) a w =
      let display = or_nullish (get v "user") (str username) in
      (
        ok tt,
        record a { user = display; roles = array_or_nil (get v "roles"); token = none },
        store_user display w,
      )

  unfoldable pub login_password : String → String → Auth → World → Result (Unit {0}) × Auth × World
  login_password username password a w =
      let (r, w') = Calls.local_login p username password w in logged_in username r a w'

  -- A failure of the request is ignored.
  unfoldable pub logout : Auth → World → Auth × World
  logout a w =
      let (r, w') = Calls.logout p w in
      (record a { user = null; roles = []; token = none }, forget_user w')

  -- Where `loginSSO` sends the browser.
  unfoldable pub sso_url : Option String → String
  sso_url none = p.base ++ "/auth/sso/login"
  sso_url (some next) =
      if next == ""
      then p.base ++ "/auth/sso/login"
      else p.base ++ "/auth/sso/login" ++ "?" ++ query_text (("next", next) ∷ [])

unfoldable pub is_authenticated : Auth → Bool
is_authenticated a = truthy a.user
