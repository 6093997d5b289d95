-- ===== src/Auth/Late.antt =====
-- An answer of /api/v1/me that comes after a sign-out. Each component of Auth/Components asks for the
-- user when it is mounted, and only its own unmounting cancels what it does with the answer.
use codespace_operator.Prelude.{
  String, ◌≡◌, refl, true, false, false, none, some, arith, eq_refl, lookup, lookup-insert,
}
use codespace_operator.Js.Result.{ok}
use codespace_operator.Js.Json.{Json, truthy, to_text}
use codespace_operator.Client.{user_key}
use codespace_operator.Client.Calls
use codespace_operator.Client.Actions.{Platform, World}
use codespace_operator.Auth.Laws.{logout_lem}
use codespace_operator.Auth.Components.{ix_enabled}
use codespace_operator.Auth.{Auth, display_name, store_user, restored, logout, is_authenticated}

remembered :
    (p : Platform) (to_lower_case : String → String) (a : Auth) (v : Json) (w : World)
    → truthy (display_name v) ≡ true
    → let (told, w') = restored p to_lower_case false (ok v) a w in
      (is_authenticated told ≡ true)
      × (told.is_loading ≡ false)
      × (lookup user_key w'.storage ≡ some (to_text (display_name v)))
unfolding restored store_user is_authenticated
remembered p to_lower_case a v w named = (
  named,
  refl,
  rw named (
      ground (
        arith,
        lookup-insert user_key user_key (to_text (display_name v)) w.storage,
        eq_refl user_key,
      )),
)

-- A component asks for its user, and another one signs out before the answer: the name is forgotten.
-- When the answer names a user and the component is still mounted, it then counts as signed in, App
-- as one that may introspect, and it stores the name again. Where the component was unmounted in
-- between, the name stays forgotten.
pub late_answer_signs_in :
    (p : Platform) (to_lower_case : String → String) (a other : Auth) (w : World) (v : Json)
    → (Calls.get_current_user p w).0 ≡ ok v
    → truthy (display_name v) ≡ true
    → let (answer, asked) = Calls.get_current_user p w in
      let w' = (logout p to_lower_case other asked).1 in
      let (told, again) = restored p to_lower_case false answer a w' in
      let unmounted = (restored p to_lower_case true answer a w').1 in
      (lookup user_key w'.storage ≡ none)
      × (is_authenticated told ≡ true)
      × (ix_enabled told ≡ true)
      × (lookup user_key again.storage ≡ some (to_text (display_name v)))
      × (lookup user_key unmounted.storage ≡ none)
late_answer_signs_in p to_lower_case a other w v answered named =
    let w' = (logout p to_lower_case other (Calls.get_current_user p w).1).1 in
    let forgotten = logout_lem p to_lower_case other (Calls.get_current_user p w).1 in
    let (signed_in, ready, stored) = remembered p to_lower_case a v w' named in
    rw answered (
      forgotten.2,
      signed_in,
      unfold ix_enabled in rw (signed_in, ready) refl,
      stored,
      unfold restored in forgotten.2,
    )
