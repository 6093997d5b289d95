-- ===== src/Js/Uri.antt =====
-- encodeURIComponent: UTF-8, then %XX for every byte that is not unreserved.
pub mod Component
pub mod Decode
pub mod Laws
use Prim.Native.String.{[], ◌∷◌, ◌++◌, char_at}
use mathlib.Core.List
use codespace_operator.Prelude.{
  ℕ, ◌+◌, ◌-◌, ◌/◌, ◌%◌, String, Char, code, ◌≡◌, refl, Bool, ◌&&◌, ◌||◌, List, ltb, leb, eqb,
  if◌then◌else◌,
}

-- A-Z a-z 0-9 - _ . ! ~ * ' ( )
unfoldable pub is_unreserved : ℕ → Bool
is_unreserved c =
    (leb 65 c && leb c 90)
    || (leb 97 c && leb c 122)
    || (leb 48 c && leb c 57)
    || eqb c 45
    || eqb c 95
    || eqb c 46
    || eqb c 33
    || eqb c 126
    || (leb 39 c && leb c 42)

-- The UTF-8 bytes of a scalar value.
unfoldable pub utf8 : ℕ → List ℕ
utf8 n =
    if ltb n 0x80
    then List.◌∷◌ n List.[]
    else if ltb n 0x800
    then List.◌∷◌ (0xC0 + n / 64) (List.◌∷◌ (0x80 + n % 64) List.[])
    else if ltb n 0x10000
    then List.◌∷◌ (0xE0 + n / 4096)
        (List.◌∷◌ (0x80 + n / 64 % 64) (List.◌∷◌ (0x80 + n % 64) List.[]))
    else List.◌∷◌ (0xF0 + n / 262144) (
        List.◌∷◌ (0x80 + n / 4096 % 64)
          (List.◌∷◌ (0x80 + n / 64 % 64) (List.◌∷◌ (0x80 + n % 64) List.[])))

-- A digit of %XX, in upper case.
unfoldable pub hex_char : ℕ → Char
hex_char d = char_at "0123456789ABCDEF" d

unfoldable pub percent : List ℕ → String
unfolding hex_char
percent List.[] = ""
percent (List.◌∷◌ b bs) = "%" ++ (hex_char (b / 16) ∷ hex_char (b % 16) ∷ percent bs)

unfoldable pub encode_uri_component : String → String
unfolding is_unreserved utf8 percent
encode_uri_component [] = ""
encode_uri_component (c ∷ s) =
    let rest = encode_uri_component s in
    if is_unreserved (code c) then c ∷ rest else percent (utf8 (code c)) ++ rest

encode_test : encode_uri_component "team a/ü€😀" ≡ "team%20a%2F%C3%BC%E2%82%AC%F0%9F%98%80"
unfolding encode_uri_component
encode_test = refl

-- The characters that URLSearchParams leaves as they are.
is_form_plain : ℕ → Bool
is_form_plain c =
    (leb 65 c && leb c 90)
    || (leb 97 c && leb c 122)
    || (leb 48 c && leb c 57)
    || eqb c 42
    || eqb c 45
    || eqb c 46
    || eqb c 95

-- A name or a value in the text of a URLSearchParams.
unfoldable pub form_encode : String → String
unfolding is_form_plain utf8 percent
form_encode [] = ""
form_encode (c ∷ s) =
    let rest = form_encode s in
    if is_form_plain (code c)
    then c ∷ rest
    else if eqb (code c) 32
    then "+" ++ rest
    else percent (utf8 (code c)) ++ rest

-- `params.toString()`
unfoldable pub query_text : List (String × String) → String
unfolding form_encode
query_text List.[] = ""
query_text (List.◌∷◌ (k, v) List.[]) = form_encode k ++ "=" ++ form_encode v
query_text (List.◌∷◌ (k, v) (List.◌∷◌ p ps)) =
    form_encode k ++ "=" ++ form_encode v ++ "&" ++ query_text (List.◌∷◌ p ps)
