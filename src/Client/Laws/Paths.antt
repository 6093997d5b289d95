-- ===== src/Client/Laws/Paths.antt =====
-- The paths of the sessions API.
use text.Mathlib.TextLemmas.{append_cancel_left, append_cancel_right}
use codespace_operator.Prelude.{String, ◌≡◌, ◌⊎◌, inl, inr}
use codespace_operator.Prelude.Int.{ℤ}
use codespace_operator.Js.Uri.Laws.{encode-pair_injective}
use codespace_operator.Client.{api_request}
use codespace_operator.Client.Actions.{Platform}
use codespace_operator.Client.Calls.{session_path, sessions_path}
use codespace_operator.Client.Laws.Cookies.{remove, scale}
use codespace_operator.Client.Laws.Requests.{request_of}

path_injective :
    (ns name ns' name' : String)
    → session_path ns name ≡ session_path ns' name'
    → (ns ≡ ns') × (name ≡ name')
unfolding session_path
path_injective ns name ns' name' e =
    encode-pair_injective ns name ns' name'
      (append_cancel_left "/" _ _ (append_cancel_left sessions_path _ _ e))

-- If the requests that delete two sessions, or the requests that scale two sessions, go to one URL, then
-- the two have the same namespace and the same name, whatever the characters of these are.
pub session_path-injective :
    (p : Platform) (ns name ns' name' : String) (n n' : ℤ)
    → ((request_of p (remove ns name)).url ≡ (request_of p (remove ns' name')).url)
      ⊎ ((request_of p (scale ns name n)).url ≡ (request_of p (scale ns' name' n')).url)
    → (ns ≡ ns') × (name ≡ name')
unfolding request_of api_request
session_path-injective p ns name ns' name' n n' (inl e) =
    path_injective ns name ns' name' (append_cancel_left p.base _ _ e)
session_path-injective p ns name ns' name' n n' (inr e) =
    path_injective ns name ns' name'
      (append_cancel_right _ _ "/scale" (append_cancel_left p.base _ _ e))
