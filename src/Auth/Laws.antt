-- ===== src/Auth/Laws.antt =====
-- What holds of a component's signed-in user.
use codespace_operator.Prelude.{
  String, ◌≡◌, ◌≢◌, refl, sym, subst, Bool, true, false, Option, none, some, List, [], ◌∷◌, arith,
  eq_iff, lookup, lookup-insert, lookup-without,
}
use codespace_operator.Js.Result.{Result, ok, err}
use codespace_operator.Js.Json.{Json, null, str, get, truthy, to_text}
use codespace_operator.Client.{user_key}
use codespace_operator.Client.Calls
use codespace_operator.Client.Actions.{World, Platform}
use codespace_operator.Auth.{
  Auth, initial, or_nullish, store_user, restored, restore, login_message, logged_in,
  login_password, logout, is_authenticated,
}

-- What a component can do with its user.
pub data Action : Type 0 where
  restore_user : Bool → Action
  sign_in : String → String → Action
  sign_out : Action

module _ (p : Platform) (to_lower_case : String → String) where
  unfoldable pub act : Action → Auth × World → Auth × World
  act (restore_user cancelled) (a, w) = restore p to_lower_case cancelled a w
  act (sign_in username password) (a, w) =
      let (_, a', w') = login_password p to_lower_case username password a w in (a', w')
  act sign_out (a, w) = logout p to_lower_case a w

  pub act_all : List Action → Auth × World → Auth × World
  act_all [] s = s
  act_all (x ∷ xs) s = act_all xs (act x s)

  restored-token :
      (c : Bool) (r : Result Json) (a : Auth) (w : World)
      → a.token ≡ none
      → (restored p to_lower_case c r a w).0.token ≡ none
  unfolding restored
  restored-token true r a w h = h
  restored-token false (ok v) a w h = refl
  restored-token false (err m) a w h = refl

  logged_in-token :
      (u : String) (r : Result Json) (a : Auth) (w : World)
      → a.token ≡ none
      → (logged_in p to_lower_case u r a w).1.token ≡ none
  unfolding logged_in
  logged_in-token u (err m) a w h = h
  logged_in-token u (ok null) a w h = h
  logged_in-token u (ok _) a w h = refl

  act-token : (x : Action) (s : Auth × World) → s.0.token ≡ none → (act x s).0.token ≡ none
  unfolding act restore login_password logout
  act-token (restore_user c) (a, w) h = restored-token c _ a _ h
  act-token (sign_in u password) (a, w) h = logged_in-token u _ a _ h
  act-token sign_out (a, w) h = refl

  token_of_actions :
      (xs : List Action) (s : Auth × World) → s.0.token ≡ none → (act_all xs s).0.token ≡ none
  unfolding act_all
  token_of_actions [] s h = h
  token_of_actions (x ∷ xs) s h = token_of_actions xs (act x s) (act-token x s h)

-- Whatever a component does and the server answers, it never holds a token.
pub token_never_stored :
    (p : Platform) (to_lower_case : String → String) (stored : Option String) (w : World)
    (xs : List Action)
    → (act_all p to_lower_case xs (initial stored, w)).0.token ≡ none
token_never_stored p to_lower_case stored w xs =
    token_of_actions p to_lower_case xs (initial stored, w) (unfold initial in refl)

-- Signing out leaves nobody signed in, no roles and no stored name, also where the request fails.
pub logout_lem :
    (p : Platform) (to_lower_case : String → String) (a : Auth) (w : World)
    → let s = logout p to_lower_case a w in
      (is_authenticated s.0 ≡ false) × (s.0.roles ≡ []) × (lookup user_key s.1.storage ≡ none)
unfolding logout is_authenticated truthy
logout_lem p to_lower_case a w = (
  refl,
  refl,
  ground (
    arith,
    lookup-without user_key user_key (Calls.logout p w).1.storage,
    eq_iff user_key user_key,
  ),
)

-- The stored name after a sign-in that stores `display`.
lookup-store_user :
    (display : Json) (w : World)
    → truthy display ≡ true
    → lookup user_key (store_user display w).storage ≡ some (to_text display)
unfolding store_user
lookup-store_user display w h = ground (
  arith,
  h,
  lookup-insert user_key user_key (to_text display) w.storage,
  eq_iff user_key user_key,
)

logged_in_err :
    (p : Platform) (to_lower_case : String → String) (username : String) (r : Result Json)
    (message : String) (a : Auth) (w : World)
    → r ≡ err message
    → ((logged_in p to_lower_case username r a w).1 ≡ a)
      × ((logged_in p to_lower_case username r a w).0 ≡ err (login_message p to_lower_case message))
unfolding logged_in
logged_in_err p to_lower_case username (err m) message a w e = (refl, cc)
logged_in_err p to_lower_case username (ok v) message a w e = cc

-- A sign-in whose request fails leaves the component's user, roles and token as they were, and throws
-- the message of the request in the words of the login page.
pub login_failure :
    (p : Platform) (to_lower_case : String → String) (username password message : String) (a : Auth)
    (w : World)
    → (Calls.local_login p username password w).0 ≡ err message
    → ((login_password p to_lower_case username password a w).1 ≡ a)
      × ((login_password p to_lower_case username password a w).0
          ≡ err (login_message p to_lower_case message))
unfolding login_password
login_failure p to_lower_case username password message a w e =
    logged_in_err p to_lower_case username (Calls.local_login p username password w).0 message a
      (Calls.local_login p username password w).1 e

-- A component that is signed in under a name, which localStorage holds too.
abbrev pub IsSignedIn : Json → Result (Unit {0}) × Auth × World → Type 0
IsSignedIn display s =
    (s.0 ≡ ok tt)
    × (s.1.user ≡ display)
    × (is_authenticated s.1 ≡ true)
    × (s.1.token ≡ none)
    × (lookup user_key s.2.storage ≡ some (to_text display))

abbrev shown_name : Json → String → Json
shown_name v username = or_nullish (get v "user") (str username)

module _ (p : Platform) (to_lower_case : String → String) (username : String) (a : Auth)
    (w : World) where
  logged_in_ok :
      (v : Json)
      → v ≢ null
      → truthy (shown_name v username) ≡ true
      → IsSignedIn (shown_name v username) (logged_in p to_lower_case username (ok v) a w)
  unfolding logged_in is_authenticated
  logged_in_ok null n t = absurd (n refl)
  logged_in_ok v n t = (refl, refl, t, refl, lookup-store_user (shown_name v username) w t)

-- A sign-in whose request answers anything but null, and that gives a truthy name (that of the answer,
-- else the one typed in), signs that name in, holds no token, and stores the name.
pub login_success :
    (p : Platform) (to_lower_case : String → String) (username password : String) (v : Json)
    (a : Auth) (w : World)
    → (Calls.local_login p username password w).0 ≡ ok v
    → v ≢ null
    → truthy (or_nullish (get v "user") (str username)) ≡ true
    → IsSignedIn
        (or_nullish (get v "user") (str username))
        (login_password p to_lower_case username password a w)
unfolding login_password
login_success p to_lower_case username password v a w e n t =
    subst
      (λ r.
        IsSignedIn (or_nullish (get v "user") (str username))
          (logged_in p to_lower_case username r a (Calls.local_login p username password w).1))
      (sym e)
      (logged_in_ok p to_lower_case username a (Calls.local_login p username password w).1 v n t)
