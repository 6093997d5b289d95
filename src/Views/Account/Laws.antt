-- ===== src/Views/Account/Laws.antt =====
-- What the card of permissions shows while answers are awaited, fail, or are there.
use codespace_operator.Prelude.{
  String, Bool, true, false, ◌||◌, Option, none, some, ◌≡◌, ◌↔◌, arith,
}
use codespace_operator.Sessions.{truthy_text}
use codespace_operator.Types.Introspection.{UserIntrospectionResponse, ServerIntrospectionResponse}
use codespace_operator.Views.Account.{spinner, failed, permissions}

-- The spinner shows exactly while one of the two answers is awaited, and an error exactly when neither
-- is awaited, the user's introspection failed with a message and left no answer: an answer that is
-- there is shown whatever failed later, and a failure of the server's introspection alone is no error.
pub permissions_lem :
    (user_loading server_loading : Bool) (user : Option UserIntrospectionResponse)
    (user_error : Option String) (server : Option ServerIntrospectionResponse)
    (server_error : Option String) (message : String)
    → let shown = permissions user_loading server_loading user user_error server server_error in
      ((shown ≡ spinner) ↔ ((user_loading || server_loading) ≡ true))
      × ((shown ≡ failed message) ↔ (
          ((user_loading || server_loading) ≡ false)
          × ((user ≡ none) × (truthy_text user_error ≡ some message))))
unfolding permissions
permissions_lem user_loading server_loading user user_error server server_error message =
    grind arith
