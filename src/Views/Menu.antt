-- ===== src/Views/Menu.antt =====
-- ui/src/components/Header.tsx: the menu of the user and the button "Sign out".
use codespace_operator.Prelude.{
  String, ◌≡◌, ◌≢◌, refl, Bool, true, false, not, Option, none, some, List, [], ◌∷◌, arith, eq_iff,
  lookup, lookup-without, if◌then◌else◌,
}
use codespace_operator.Js.Json.{Json, null, truthy, to_text}
use codespace_operator.Client.{user_key}
use codespace_operator.Client.Calls
use codespace_operator.Client.Actions.{Platform, World, send, ◌>>=◌}
use codespace_operator.Auth.{Auth, initial, forget_user, logout, is_authenticated}
use codespace_operator.App.Routes.{Location}

-- `userMenuItems`: the titles and where they lead
abbrev pub menu_items : List (String × String)
menu_items = ("User Management", "/user-info") ∷ ("Settings", "/info") ∷ []

pub data Event : Type 0 where
  toggled selected : Event

-- `isUserMenuOpen`
unfoldable pub step : Event → Bool → Bool
step toggled is_open = not is_open
step selected is_open = false

-- The name on the toggle; without one there is neither a menu nor a button "Sign out".
unfoldable pub shown_user : Json → Option String
shown_user user = if truthy user then some (to_text user) else none

abbrev pub login_location : Location
login_location = record { pathname = "/login"; from = none }

-- What `logout` does once its request is answered or has failed.
unfoldable pub finish_logout : Auth → World → Auth × World
finish_logout a w = (record a { user = null; roles = []; token = none }, forget_user w)

-- `handleLogout` starts the sign-out and goes to the sign-in page at once.
module _ (p : Platform) where
  unfoldable pub handle_logout : World → World × Location
  handle_logout w = ((Calls.logout p w).1, login_location)

  -- The two parts are `logout` where nothing comes between them.
  halves :
      (to_lower_case : String → String) (a : Auth) (w : World)
      → finish_logout a (handle_logout w).0 ≡ logout p to_lower_case a w
  unfolding finish_logout handle_logout logout
  halves to_lower_case a w = refl

  kept_by_logout : (w : World) → (Calls.logout p w).1.storage ≡ w.storage
  unfolding Calls.logout send ◌>>=◌
  kept_by_logout w = ground arith

  -- Between a click on "Sign out" and the answer of the server the page is that of the sign-in, but the
  -- name is still stored: a gate that is mounted then, as by going back, starts with the user signed in.
  -- One that is mounted after the answer does not.
  pending_sign_out :
      (a : Auth) (w : World) (name : String)
      → lookup user_key w.storage ≡ some name
      → name ≢ ""
      → let (pending, shown) = handle_logout w in
        let done = (finish_logout a pending).1 in
        (shown.pathname ≡ "/login")
        × (is_authenticated (initial (lookup user_key pending.storage)) ≡ true)
        × (is_authenticated (initial (lookup user_key done.storage)) ≡ false)
  unfolding handle_logout finish_logout is_authenticated initial truthy
  pending_sign_out a w name stored named = (
    refl,
    rw (kept_by_logout w) (ground (arith, stored, eq_iff name "")),
    ground (
      arith,
      lookup-without user_key user_key (Calls.logout p w).1.storage,
      eq_iff user_key user_key,
    ),
  )
