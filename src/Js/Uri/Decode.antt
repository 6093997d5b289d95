-- ===== src/Js/Uri/Decode.antt =====
-- A decoder, over code points: percent escapes to bytes, then UTF-8 to scalar values. It describes
-- what a server does with the path, and shows that encoding loses nothing.
use codespace_operator.Prelude.{
  ℕ, zero, suc, ◌+◌, ◌-◌, ◌*◌, ◌/◌, ◌%◌, ◌<◌, ◌≡◌, ◌≢◌, refl, true, List, [], ◌∷◌, ◌++◌, arith, ltb,
  eqb, if◌then◌else◌, Bool-cases, inl, inr, All, ◌∙◌, ap,
}
use codespace_operator.Js.Uri.{is_unreserved, utf8}

abbrev pub hex_code : ℕ → ℕ
hex_code d = if ltb d 10 then 48 + d else 55 + d

abbrev unhex : ℕ → ℕ
unhex c = if ltb c 58 then c - 48 else c - 55

data Escape : Type 0 where
  plain first : Escape
  second : ℕ → Escape

unescape : Escape → List ℕ → List ℕ
unescape e [] = []
unescape plain (c ∷ cs) =
    let escaped = unescape first cs in
    let kept = c ∷ unescape plain cs in if eqb c 37 then escaped else kept
unescape first (c ∷ cs) = unescape (second (unhex c)) cs
unescape (second h) (c ∷ cs) = (h * 16 + unhex c) ∷ unescape plain cs

-- `wait` continuation bytes are still to come for the value begun as `acc`.
from_utf8 : ℕ → ℕ → List ℕ → List ℕ
from_utf8 wait acc [] = []
from_utf8 zero acc (b ∷ bs) =
    let one = b ∷ from_utf8 0 0 bs in
    let more =
      from_utf8 (if ltb b 0xE0 then 1 else if ltb b 0xF0 then 2 else 3)
        (if ltb b 0xE0 then b - 0xC0 else if ltb b 0xF0 then b - 0xE0 else b - 0xF0) bs in
    if ltb b 0x80 then one else more
from_utf8 (suc zero) acc (b ∷ bs) = (acc * 64 + (b - 0x80)) ∷ from_utf8 0 0 bs
from_utf8 (suc (suc wait)) acc (b ∷ bs) = from_utf8 (suc wait) (acc * 64 + (b - 0x80)) bs

pub decode : List ℕ → List ℕ
unfolding unescape from_utf8
decode cs = from_utf8 0 0 (unescape plain cs)

abbrev pub escapes : List ℕ → List ℕ
escapes [] = []
escapes (b ∷ bs) = 37 ∷ hex_code (b / 16) ∷ hex_code (b % 16) ∷ escapes bs

-- encodeURIComponent over code points
abbrev pub encode_code : ℕ → List ℕ
encode_code n = if is_unreserved n then n ∷ [] else escapes (utf8 n)

abbrev pub encode_codes : List ℕ → List ℕ
encode_codes [] = []
encode_codes (n ∷ ns) = encode_code n ++ encode_codes ns

abbrev bytes : List ℕ → List ℕ
bytes [] = []
bytes (n ∷ ns) = utf8 n ++ bytes ns

unhex-hex_code : (d : ℕ) → d < 16 → unhex (hex_code d) ≡ d
unhex-hex_code d h = ground arith

unescape-escapes :
    (bs cs : List ℕ)
    → All (λ b. b < 256) bs
    → unescape plain (escapes bs ++ cs) ≡ bs ++ unescape plain cs
unfolding unescape
unescape-escapes [] cs h = refl
unescape-escapes (b ∷ bs) cs h = ground (
  arith,
  unescape-escapes bs cs h.1,
  unhex-hex_code (b / 16) (omega arith),
  unhex-hex_code (b % 16) (omega arith),
)

pub utf8-lt : (n : ℕ) → n < 0x110000 → All (λ b. b < 256) (utf8 n)
unfolding utf8
utf8-lt n h = ground arith

utf8_of_unreserved : (n : ℕ) → is_unreserved n ≡ true → (utf8 n ≡ n ∷ []) × (n ≢ 37)
unfolding utf8 is_unreserved
utf8_of_unreserved n h = ground arith

unescape_plain : (n : ℕ) (cs : List ℕ) → n ≢ 37 → unescape plain (n ∷ cs) ≡ n ∷ unescape plain cs
unfolding unescape
unescape_plain n cs h = ground arith

unescape-encode_code :
    (n : ℕ) (cs : List ℕ)
    → n < 0x110000
    → unescape plain (encode_code n ++ cs) ≡ utf8 n ++ unescape plain cs
unescape-encode_code n cs h = elim (Bool-cases (is_unreserved n)) [
  | inl e ↦ let (same, other) = utf8_of_unreserved n e in rw (e, same) (unescape_plain n cs other)
  | inr e ↦ rw e (unescape-escapes (utf8 n) cs (utf8-lt n h))
]

from_utf8-utf8 :
    (n : ℕ) (bs : List ℕ) → n < 0x110000 → from_utf8 0 0 (utf8 n ++ bs) ≡ n ∷ from_utf8 0 0 bs
unfolding from_utf8 utf8
from_utf8-utf8 n bs h = ground arith

unescape-encode_codes :
    (ns : List ℕ) → All (λ n. n < 0x110000) ns → unescape plain (encode_codes ns) ≡ bytes ns
unescape-encode_codes [] h = unfold unescape in refl
unescape-encode_codes (n ∷ ns) h =
    unescape-encode_code n (encode_codes ns) h.0
    ∙ ap (λ bs. utf8 n ++ bs) (unescape-encode_codes ns h.1)

from_utf8-bytes : (ns : List ℕ) → All (λ n. n < 0x110000) ns → from_utf8 0 0 (bytes ns) ≡ ns
from_utf8-bytes [] h = unfold from_utf8 in refl
from_utf8-bytes (n ∷ ns) h =
    from_utf8-utf8 n (bytes ns) h.0 ∙ ap (λ ms. n ∷ ms) (from_utf8-bytes ns h.1)

-- Decoding gives back every scalar value that was encoded.
pub decode-encode_codes : (ns : List ℕ) → All (λ n. n < 0x110000) ns → decode (encode_codes ns) ≡ ns
unfolding decode
decode-encode_codes ns h = rw (unescape-encode_codes ns h) (from_utf8-bytes ns h)

abbrev pub NoSlash : List ℕ → Type 0
NoSlash cs = All (λ c. c ≢ 47) cs

NoSlash-append : (xs ys : List ℕ) → NoSlash xs → NoSlash ys → NoSlash (xs ++ ys)
NoSlash-append [] ys h k = k
NoSlash-append (x ∷ xs) ys h k = (h.0, NoSlash-append xs ys h.1 k)

NoSlash-escapes : (bs : List ℕ) → All (λ b. b < 256) bs → NoSlash (escapes bs)
NoSlash-escapes [] h = tt
NoSlash-escapes (b ∷ bs) h =
    (omega arith, (ground (arith, h.0), (ground (arith, h.0), NoSlash-escapes bs h.1)))

NoSlash-encode_code : (n : ℕ) → n < 0x110000 → NoSlash (encode_code n)
NoSlash-encode_code n h = elim (Bool-cases (is_unreserved n)) [
  | inl e ↦ rw e (unreserved-ne-slash n e, tt)
  | inr e ↦ rw e (NoSlash-escapes (utf8 n) (utf8-lt n h))
]
  where
    unreserved-ne-slash : (m : ℕ) → is_unreserved m ≡ true → m ≢ 47
    unreserved-ne-slash m e = unfold is_unreserved in ground arith

pub NoSlash-encode_codes : (ns : List ℕ) → All (λ n. n < 0x110000) ns → NoSlash (encode_codes ns)
NoSlash-encode_codes [] h = tt
NoSlash-encode_codes (n ∷ ns) h =
    NoSlash-append (encode_code n) (encode_codes ns) (NoSlash-encode_code n h.0)
      (NoSlash-encode_codes ns h.1)

-- A text with no slash is determined by what stands before the first slash of a longer text.
pub split_at_slash :
    (xs xs' ys ys' : List ℕ)
    → NoSlash xs
    → NoSlash xs'
    → xs ++ 47 ∷ ys ≡ xs' ++ 47 ∷ ys'
    → (xs ≡ xs') × (ys ≡ ys')
split_at_slash [] [] ys ys' h k e = (refl, cc)
split_at_slash [] (x' ∷ xs') ys ys' h k e = ground (arith, k.0)
split_at_slash (x ∷ xs) [] ys ys' h k e = ground (arith, h.0)
split_at_slash (x ∷ xs) (x' ∷ xs') ys ys' h k e =
    let (same, rest) = split_at_slash xs xs' ys ys' h.1 k.1 (cc) in (cc, rest)
