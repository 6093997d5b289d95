-- ===== src/Views/Token.antt =====
-- ui/src/pages/UserInfoPage.tsx: the decoding of the token, and the card with its times.
pub mod Laws
use codespace_operator.Prelude.{
  ℕ, ◌*◌, String, Bool, true, false, Option, none, some, List, [], ◌∷◌, map, leb, eqb, ◌==◌,
  if◌then◌else◌,
}
use codespace_operator.Prelude.Int.{ℤ, pos, negsuc}
use codespace_operator.Js.Caught.{◌>>=◌}
use codespace_operator.Js.Text.{codes}
use codespace_operator.Js.Json.{Json, null, num, get}
use codespace_operator.Js.Base64.{atob, to_standard}
use codespace_operator.Js.Uri.Component.{decode_uri_component, escape_bytes}

-- Puts a character in front of the first part.
abbrev push : ℕ → List (List ℕ) → List (List ℕ)
push c [] = (c ∷ []) ∷ []
push c (part ∷ parts) = (c ∷ part) ∷ parts

-- `t.split(sep)` for a single character
unfoldable pub split_on : ℕ → List ℕ → List (List ℕ)
split_on sep [] = [] ∷ []
split_on sep (c ∷ cs) = let rest = split_on sep cs in if eqb c sep then [] ∷ rest else push c rest

-- `parts[1]`, or none where there are fewer than two parts
abbrev second : List (List ℕ) → Option (List ℕ)
second [] = none
second (a ∷ []) = none
second (a ∷ b ∷ parts) = some b

abbrev pub or_null : Option Json → Json
or_null none = null
or_null (some v) = v

-- What is decoded from a part of the token, or none where something throws. `parse` is JSON.parse.
unfoldable pub decode_part : (List ℕ → Option Json) → List ℕ → Option Json
decode_part parse part = do
  bytes ← atob (map to_standard part)
  json ← decode_uri_component (escape_bytes bytes)
  parse json

-- `decodeJWTPayload`
unfoldable pub decode_jwt_payload : (List ℕ → Option Json) → Option String → Json
decode_jwt_payload parse none = null
decode_jwt_payload parse (some t) =
    let decoded = (do part ← second (split_on 46 (codes t)); decode_part parse part) in
    if t == "" then null else or_null decoded

-- `(token ? tokenPayload?.key : userInfo?.key) ?? null`, where `given` is the property of `userInfo`
unfoldable pub time_of : (List ℕ → Option Json) → String → Option String → Option Json → Json
time_of parse key none given = or_null given
time_of parse key (some t) given =
    let decoded = or_null (get (decode_jwt_payload parse (some t)) key) in
    if t == "" then or_null given else decoded

-- `typeof seconds === "number"`
abbrev pub number_of : Json → Option ℤ
number_of (num n) = some n
number_of _ = none

-- `Date.now() / 1000 >= seconds`
unfoldable pub has_passed : ℕ → ℤ → Bool
has_passed now (pos s) = leb (s * 1000) now
has_passed now (negsuc s) = true

-- The times are in seconds; one that is not a number is not shown.
pub record TokenCard : Type 0 where
  pub expired : Bool
  pub issued : Option ℤ
  pub expires : Option ℤ

unfoldable pub token_card :
    (List ℕ → Option Json) → ℕ → Option String → Option Json → Option Json → TokenCard
token_card parse now token iat exp =
    let expires = number_of (time_of parse "exp" token exp) in
    record {
      expired = elim expires [ none ↦ false | some s ↦ has_passed now s ];
      issued = number_of (time_of parse "iat" token iat);
      expires = expires;
    }
