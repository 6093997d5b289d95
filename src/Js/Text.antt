-- ===== src/Js/Text.antt =====
-- Methods of String: trim, includes, split(/\s+/), join, and the printing of whole numbers.
use Prim.Native.String.{[], ◌∷◌, ◌++◌}
use text.Mathlib.TextLemmas.{nil-append, cons-append}
use mathlib.Core.List
use codespace_operator.Prelude.{
  ℕ, zero, suc, ◌/◌, ◌%◌, String, code, ◌≡◌, refl, Bool, true, false, ◌&&◌, ◌||◌, List, ltb, leb,
  eqb, ◌==◌, if◌then◌else◌,
}

-- The code points of a text.
abbrev pub codes : String → List ℕ
codes [] = List.[]
codes (c ∷ s) = List.◌∷◌ (code c) (codes s)

pub codes-append : (s t : String) → codes (s ++ t) ≡ List.◌++◌ (codes s) (codes t)
codes-append [] t = rw nil-append
codes-append (c ∷ s) t = rw (cons-append, codes-append s t)

-- WhiteSpace and LineTerminator of ECMAScript, which are also what \s matches.
unfoldable pub is_space : ℕ → Bool
is_space c =
    (leb 9 c && leb c 13)
    || eqb c 32
    || eqb c 0xA0
    || eqb c 0x1680
    || (leb 0x2000 c && leb c 0x200A)
    || eqb c 0x2028
    || eqb c 0x2029
    || eqb c 0x202F
    || eqb c 0x205F
    || eqb c 0x3000
    || eqb c 0xFEFF

trim_start : String → String
trim_start [] = ""
trim_start (c ∷ s) = let rest = trim_start s in if is_space (code c) then rest else c ∷ s

trim_end : String → String
trim_end [] = ""
trim_end (c ∷ s) = let rest = trim_end s in if is_space (code c) && rest == "" then "" else c ∷ rest

unfoldable pub trim : String → String
unfolding trim_start trim_end is_space
trim s = trim_start (trim_end s)

starts_with : String → String → Bool
starts_with [] s = true
starts_with (p ∷ ps) [] = false
starts_with (p ∷ ps) (c ∷ s) = eqb (code p) (code c) && starts_with ps s

-- `s.includes(q)`
unfoldable pub includes_text : String → String → Bool
unfolding starts_with
includes_text [] q = starts_with q ""
includes_text (c ∷ s) q = starts_with q (c ∷ s) || includes_text s q

-- `s.startsWith(p)`
unfoldable pub has_prefix : String → String → Bool
unfolding starts_with
has_prefix s p = starts_with p s

-- `s.split(/\s+/)`: `run` while inside a separator, which is a longest run of spaces.
split_from : Bool → String → String → List String
split_from run cur [] = List.◌∷◌ cur List.[]
split_from run cur (c ∷ s) =
    let within = split_from true cur s in
    let closed = List.◌∷◌ cur (split_from true "" s) in
    let longer = split_from false (cur ++ c ∷ "") s in
    if is_space (code c) then (if run then within else closed) else longer

unfoldable pub split_spaces : String → List String
unfolding split_from is_space
split_spaces s = split_from false "" s

-- `xs.join(sep)`
unfoldable pub join : String → List String → String
join sep List.[] = ""
join sep (List.◌∷◌ x List.[]) = x
join sep (List.◌∷◌ x (List.◌∷◌ y ys)) = x ++ sep ++ join sep (List.◌∷◌ y ys)

-- One decimal digit.
digit : ℕ → String
digit n =
    if eqb n 0
    then "0"
    else if eqb n 1
    then "1"
    else if eqb n 2
    then "2"
    else if eqb n 3
    then "3"
    else if eqb n 4
    then "4"
    else if eqb n 5
    then "5"
    else if eqb n 6
    then "6"
    else if eqb n 7
    then "7"
    else if eqb n 8
    then "8"
    else "9"

show_from : ℕ → ℕ → String → String
show_from zero n acc = acc
show_from (suc fuel) n acc =
    let rest = show_from fuel (n / 10) (digit (n % 10) ++ acc) in
    if ltb n 10 then digit n ++ acc else rest

-- `${n}` of a whole number; `n + 1` rounds are more than its digits.
unfoldable pub show : ℕ → String
unfolding show_from digit
show n = show_from (suc n) n ""

text_tests :
    (trim "  a b\t" ≡ "a b")
    × (includes_text "HTTP 401: no" "401" ≡ true)
    × (includes_text "abc" "ac" ≡ false)
    × (show 0 ≡ "0")
    × (show 2040 ≡ "2040")
    × (split_spaces " a  b " ≡ List.◌∷◌ "" (List.◌∷◌ "a" (List.◌∷◌ "b" (List.◌∷◌ "" List.[]))))
    × (join "," (List.◌∷◌ "a" (List.◌∷◌ "b" List.[])) ≡ "a,b")
unfolding trim includes_text show split_spaces join
text_tests = (refl, refl, refl, refl, refl, refl, refl)
