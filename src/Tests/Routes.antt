-- ===== src/Tests/Routes.antt =====
-- Routes and the times of a token.
use codespace_operator.Prelude.{
  ℕ, String, ◌≡◌, ◌≢◌, refl, ◌∙◌, sym, Bool, true, false, Option, none, some, List, [], ◌∷◌, ◌++◌,
  All, arith, ◌==◌, eq_iff,
}
use codespace_operator.Prelude.Int.{pos}
use codespace_operator.Js.Text.{codes}
use codespace_operator.Js.Json.{Json, obj, field, end, num}
use codespace_operator.Js.Uri.{utf8}
use codespace_operator.App.Routes.{Location, protected, user_info, visit, IsMatcher}
use codespace_operator.App.Routes.Laws.{destination, at_user_info, visit_settles}
use codespace_operator.Views.Token.{decode_jwt_payload, or_null}
use codespace_operator.Views.Token.Laws.{encoded, decode_jwt_payload-encoded}

abbrev small : String → String
small s = s

-- A matcher that compares the paths.
unfoldable pub same : String → String → Bool
same pattern path = pattern == path

pub same-IsMatcher : IsMatcher same
unfolding same
same-IsMatcher = record {
  itself = λ pattern i. (eq_iff pattern pattern).1 refl;
  alone = λ pattern pattern' path i i' e e'.
      (eq_iff pattern path).0 e ∙ sym ((eq_iff pattern' path).0 e');
}

abbrev profile : Location
profile = record { pathname = "/user-info"; from = none }

visit_settles_example :
    visit same 2 true false profile ≡ some (destination true false (protected user_info) profile)
visit_settles_example =
    visit_settles same same-IsMatcher true false profile (protected user_info)
      (at_user_info "/user-info" (unfold same in refl))

pub profile_there : ◌≢◌ {A = String} "/user-info" ""
profile_there = ground (arith, eq_iff "/user-info" "")

-- A JSON.parse that reads one text.
abbrev claims : Json
claims = obj (field "exp" (num (pos 9)) end)

abbrev payload : String
payload = "{\"exp\":9,\"n\":\"ü\"}"

abbrev parse : List ℕ → Option Json
parse cs = some claims

abbrev token : String
token = "h.eyJleHAiOjksIm4iOiLDvCJ9.s"

header_plain : All (λ (c : ℕ). c ≢ 46) (104 ∷ [])
header_plain = (omega arith, tt)

token_form : codes token ≡ (104 ∷ []) ++ 46 ∷ (encoded payload ++ 46 ∷ 115 ∷ [])
unfolding utf8
token_form = refl

decode_jwt_payload_example : decode_jwt_payload parse (some token) ≡ or_null (parse (codes payload))
decode_jwt_payload_example =
    decode_jwt_payload-encoded parse token payload (104 ∷ []) (115 ∷ []) token_form header_plain
