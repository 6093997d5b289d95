-- ===== src/Js/Uri/Laws.antt =====
-- encodeURIComponent on texts: nothing is lost, and no slash is left in what it returns.
use Prim.Native.Char.{char}
use Prim.Native.String.{[], ◌∷◌, ◌++◌}
use mathlib.Core.List
use text.Mathlib.TextEquality.{Char-path}
use codespace_operator.Prelude.{
  ℕ, zero, suc, ◌/◌, ◌%◌, ◌<◌, String, Char, code, ◌≡◌, refl, sym, ap, ◌∙◌, Bool, true, ◌&&◌, List,
  arith, eqb, Bool-cases, inl, inr, All, eqb→eq,
}
use codespace_operator.Js.Text.{codes, codes-append}
use codespace_operator.Js.Uri.{is_unreserved, utf8, hex_char, percent, encode_uri_component}
use codespace_operator.Js.Uri.Decode.{
  hex_code, escapes, encode_codes, decode, decode-encode_codes, NoSlash, NoSlash-encode_codes,
  split_at_slash, utf8-lt,
}

code-lt : (c : Char) → code c < 0x110000
code-lt (char n p) = ground arith

-- A test that holds of each of the first numbers.
holds_to : (ℕ → Bool) → ℕ → Bool
holds_to test zero = true
holds_to test (suc top) = holds_to test top && test top

holds_to-at : (test : ℕ → Bool) (top d : ℕ) → d < top → holds_to test top ≡ true → test d ≡ true
unfolding holds_to
holds_to-at test zero d below h = absurd (omega arith)
holds_to-at test (suc top) d below h =
    let earlier = holds_to-at test top d in ground (arith, earlier)

hex_table : holds_to (λ d. eqb (code (hex_char d)) (hex_code d)) 16 ≡ true
unfolding holds_to hex_char
hex_table = refl

code-hex_char : (d : ℕ) → d < 16 → code (hex_char d) ≡ hex_code d
code-hex_char d h = eqb→eq _ _ (holds_to-at _ 16 d h hex_table)

codes-percent : (bs : List ℕ) → All (λ b. b < 256) bs → codes (percent bs) ≡ escapes bs
unfolding percent
codes-percent List.[] h = refl
codes-percent (List.◌∷◌ b bs) h = rw (
  codes-append,
  code-hex_char (b / 16) (omega arith),
  code-hex_char (b % 16) (omega arith),
  codes-percent bs h.1,
)

codes-encode_uri_component : (s : String) → codes (encode_uri_component s) ≡ encode_codes (codes s)
unfolding encode_uri_component
codes-encode_uri_component [] = refl
codes-encode_uri_component (c ∷ s) = elim (Bool-cases (is_unreserved (code c))) [
  | inl e ↦ rw (e, codes-encode_uri_component s)
  | inr e ↦ rw (
    e,
    codes-append,
    codes-percent (utf8 (code c)) (utf8-lt (code c) (code-lt c)),
    codes-encode_uri_component s,
  )
]

codes-lt : (s : String) → All (λ n. n < 0x110000) (codes s)
codes-lt [] = tt
codes-lt (c ∷ s) = (code-lt c, codes-lt s)

codes_injective : (s t : String) → codes s ≡ codes t → s ≡ t
codes_injective [] [] e = refl
codes_injective [] (d ∷ t) e = cc
codes_injective (c ∷ s) [] e = cc
codes_injective (c ∷ s) (d ∷ t) e =
    let same = Char-path c d (cc) in let rest = codes_injective s t (cc) in cc

-- What encodeURIComponent wrote is decoded to the code points that it was given.
pub decode-encode_uri_component : (s : String) → decode (codes (encode_uri_component s)) ≡ codes s
decode-encode_uri_component s =
    rw codes-encode_uri_component (decode-encode_codes (codes s) (codes-lt s))

pub encode-injective : (s t : String) → encode_uri_component s ≡ encode_uri_component t → s ≡ t
encode-injective s t e = codes_injective s t (
    sym (decode-encode_uri_component s)
    ∙ ap (λ u. decode (codes u)) e
    ∙ decode-encode_uri_component t)

pub NoSlash-encode_uri_component : (s : String) → NoSlash (codes (encode_uri_component s))
NoSlash-encode_uri_component s =
    rw codes-encode_uri_component (NoSlash-encode_codes (codes s) (codes-lt s))

-- Two encoded parts with a slash between them determine both texts.
pub encode-pair_injective :
    (a b a' b' : String)
    → encode_uri_component a ++ "/" ++ encode_uri_component b
      ≡ encode_uri_component a' ++ "/" ++ encode_uri_component b'
    → (a ≡ a') × (b ≡ b')
encode-pair_injective a b a' b' e =
    let (l, r) =
      split_at_slash (codes (encode_uri_component a)) (codes (encode_uri_component a'))
        (codes (encode_uri_component b)) (codes (encode_uri_component b'))
        (NoSlash-encode_uri_component a) (NoSlash-encode_uri_component a') (joined e) in
    (encode-injective a a' (codes_injective _ _ l), encode-injective b b' (codes_injective _ _ r))
  where
    spread : (s t : String) → codes (s ++ "/" ++ t) ≡ List.◌++◌ (codes s) (List.◌∷◌ 47 (codes t))
    spread s t = rw (codes-append, codes-append)

    joined :
        encode_uri_component a ++ "/" ++ encode_uri_component b
          ≡ encode_uri_component a' ++ "/" ++ encode_uri_component b'
        → List.◌++◌ (codes (encode_uri_component a)) (List.◌∷◌ 47 (codes (encode_uri_component b)))
          ≡ List.◌++◌
              (codes (encode_uri_component a'))
              (List.◌∷◌ 47 (codes (encode_uri_component b')))
    joined p = sym (spread _ _) ∙ ap codes p ∙ spread _ _
