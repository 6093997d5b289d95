-- ===== src/Js/Uri/Component.antt =====
-- decodeURIComponent, over code points: escapes to bytes, then strict UTF-8.
pub mod Laws
use codespace_operator.Prelude.{
  ℕ, zero, suc, ◌+◌, ◌-◌, ◌*◌, ◌/◌, ◌%◌, ◌<◌, ◌≤◌, ◌≡◌, refl, ◌∙◌, Bool, true, false, ◌&&◌, ◌||◌,
  Option, none, some, List, [], ◌∷◌, ◌++◌, map, arith, ltb, leb, eqb, if◌then◌else◌, All,
  Bool-cases, inl, inr,
}
use codespace_operator.Js.Caught.{◌>>=◌}
use codespace_operator.Js.Uri.{utf8}

-- The value of a digit 0-9 A-F a-f.
unfoldable pub hex_value : ℕ → Option ℕ
hex_value c =
    if leb 48 c && leb c 57
    then some (c - 48)
    else if leb 65 c && leb c 70
    then some (c - 55)
    else if leb 97 c && leb c 102
    then some (c - 87)
    else none

-- A character that stands for itself, or the byte of an escape.
pub data Part : Type 0 where
  copied escaped : ℕ → Part

pub data Reading : Type 0 where
  outside after_percent : Reading
  after_digit : ℕ → Reading

parts_from : Reading → List ℕ → Option (List Part)
parts_from outside [] = some []
parts_from after_percent [] = none
parts_from (after_digit h) [] = none
parts_from outside (c ∷ cs) = elim (eqb c 37) [
  | true ↦ parts_from after_percent cs
  | false ↦ do ps ← parts_from outside cs; some (copied c ∷ ps)
]
parts_from after_percent (c ∷ cs) = do h ← hex_value c; parts_from (after_digit h) cs
parts_from (after_digit h) (c ∷ cs) = do
  l ← hex_value c
  ps ← parts_from outside cs
  some (escaped (h * 16 + l) ∷ ps)

-- A Unicode scalar value that is not less than `low`.
abbrev is_allowed : ℕ → ℕ → Bool
is_allowed low n = leb low n && ltb n 0x110000 && (ltb n 0xD800 || leb 0xE000 n)

-- `wait` continuation bytes are still to come for the value begun as `acc`, which is at least `low`.
scalars_from : ℕ → ℕ → ℕ → List Part → Option (List ℕ)
scalars_from zero acc low [] = some []
scalars_from (suc wait) acc low [] = none
scalars_from zero acc low (copied c ∷ ps) = do ns ← scalars_from 0 0 0 ps; some (c ∷ ns)
scalars_from (suc wait) acc low (copied c ∷ ps) = none
scalars_from zero acc low (escaped b ∷ ps) =
    let one = (do ns ← scalars_from 0 0 0 ps; some (b ∷ ns)) in
    let two = scalars_from 1 (b - 0xC0) 0x80 ps in
    let three = scalars_from 2 (b - 0xE0) 0x800 ps in
    let four = scalars_from 3 (b - 0xF0) 0x10000 ps in
    if ltb b 0x80
    then one
    else if ltb b 0xC0
    then none
    else if ltb b 0xE0
    then two
    else if ltb b 0xF0
    then three
    else if ltb b 0xF8
    then four
    else none
scalars_from (suc zero) acc low (escaped b ∷ ps) =
    let n = acc * 64 + (b - 0x80) in
    let rest = (do ns ← scalars_from 0 0 0 ps; some (n ∷ ns)) in
    if leb 0x80 b && ltb b 0xC0 && is_allowed low n then rest else none
scalars_from (suc (suc wait)) acc low (escaped b ∷ ps) =
    let rest = scalars_from (suc wait) (acc * 64 + (b - 0x80)) low ps in
    if leb 0x80 b && ltb b 0xC0 then rest else none

-- The code points of the result, or none where it throws.
unfoldable pub decode_uri_component : List ℕ → Option (List ℕ)
unfolding parts_from scalars_from hex_value
decode_uri_component cs = do ps ← parts_from outside cs; scalars_from 0 0 0 ps

decode_tests :
    (decode_uri_component (97 ∷ 37 ∷ 99 ∷ 51 ∷ 37 ∷ 66 ∷ 67 ∷ []) ≡ some (97 ∷ 252 ∷ []))
    × (decode_uri_component (37 ∷ 99 ∷ 51 ∷ []) ≡ none)
    × (decode_uri_component (37 ∷ 99 ∷ []) ≡ none)
    × (decode_uri_component (37 ∷ 99 ∷ 48 ∷ 37 ∷ 56 ∷ 48 ∷ []) ≡ none)
unfolding decode_uri_component
decode_tests = (refl, refl, refl, refl)

-- A digit of `b.toString(16)`.
abbrev pub hex_digit : ℕ → ℕ
hex_digit d = if ltb d 10 then 48 + d else 87 + d

-- `"%" + ("00" + b.toString(16)).slice(-2)` of each byte
abbrev pub escape_bytes : List ℕ → List ℕ
escape_bytes [] = []
escape_bytes (b ∷ bs) = 37 ∷ hex_digit (b / 16) ∷ hex_digit (b % 16) ∷ escape_bytes bs

abbrev pub utf8_bytes : List ℕ → List ℕ
utf8_bytes [] = []
utf8_bytes (n ∷ ns) = utf8 n ++ utf8_bytes ns

abbrev pub IsScalar : ℕ → Type 0
IsScalar n = (n < 0x110000) × (is_allowed 0 n ≡ true)
