-- ===== src/Js/Uri/Component/Laws.antt =====
-- Decoding the escapes of a UTF-8 text.
use codespace_operator.Prelude.{
  ℕ, suc, ◌+◌, ◌-◌, ◌*◌, ◌/◌, ◌%◌, ◌<◌, ◌≤◌, ◌≡◌, refl, ◌∙◌, true, false, Option, some, List, [],
  ◌∷◌, ◌++◌, map, arith, ltb, All, Bool-cases, inl, inr,
}
use codespace_operator.Js.Caught.{◌>>=◌}
use codespace_operator.Js.Uri.{utf8}
use codespace_operator.Js.Uri.Decode.{utf8-lt}
use codespace_operator.Js.Uri.Component.{
  hex_value, Part, escaped, outside, parts_from, is_allowed, scalars_from, decode_uri_component,
  hex_digit, escape_bytes, utf8_bytes, IsScalar,
}

hex_value-hex_digit : (d : ℕ) → d < 16 → hex_value (hex_digit d) ≡ some d
unfolding hex_value
hex_value-hex_digit d h = ground arith

parts_from-escape_bytes :
    (bs : List ℕ)
    → All (λ b. b < 256) bs
    → parts_from outside (escape_bytes bs) ≡ some (map escaped bs)
unfolding parts_from
parts_from-escape_bytes [] h = refl
parts_from-escape_bytes (b ∷ bs) h =
    rw
      (
        hex_value-hex_digit (b / 16) (omega arith),
        hex_value-hex_digit (b % 16) (omega arith),
        parts_from-escape_bytes bs h.1,
      )
      (ground arith)

-- A value that has been read, in front of the rest.
abbrev then_rest : ℕ → List Part → Option (List ℕ)
then_rest n ps = do ns ← scalars_from 0 0 0 ps; some (n ∷ ns)

ltb-eq-true : (a b : ℕ) → a < b → ltb a b ≡ true
ltb-eq-true a b h = ground (arith, h)

ltb-eq-false : (a b : ℕ) → b ≤ a → ltb a b ≡ false
ltb-eq-false a b h = ground (arith, h)

module _ (p : ℕ) (ps : List Part) where
  read_one : p < 0x80 → scalars_from 0 0 0 (escaped p ∷ ps) ≡ then_rest p ps
  unfolding scalars_from
  read_one h = rw (ltb-eq-true p 0x80 h) refl

  begin_two :
      p < 32
      → scalars_from 0 0 0 (escaped (0xC0 + p) ∷ ps) ≡ scalars_from 1 (0xC0 + p - 0xC0) 0x80 ps
  unfolding scalars_from
  begin_two h =
      rw
        (
          ltb-eq-false (0xC0 + p) 0x80 (omega arith),
          ltb-eq-false (0xC0 + p) 0xC0 (omega arith),
          ltb-eq-true (0xC0 + p) 0xE0 (omega arith),
        )
        refl

  begin_three :
      p < 16
      → scalars_from 0 0 0 (escaped (0xE0 + p) ∷ ps) ≡ scalars_from 2 (0xE0 + p - 0xE0) 0x800 ps
  unfolding scalars_from
  begin_three h =
      rw
        (
          ltb-eq-false (0xE0 + p) 0x80 (omega arith),
          ltb-eq-false (0xE0 + p) 0xC0 (omega arith),
          ltb-eq-false (0xE0 + p) 0xE0 (omega arith),
          ltb-eq-true (0xE0 + p) 0xF0 (omega arith),
        )
        refl

  begin_four :
      p < 8
      → scalars_from 0 0 0 (escaped (0xF0 + p) ∷ ps) ≡ scalars_from 3 (0xF0 + p - 0xF0) 0x10000 ps
  unfolding scalars_from
  begin_four h =
      rw
        (
          ltb-eq-false (0xF0 + p) 0x80 (omega arith),
          ltb-eq-false (0xF0 + p) 0xC0 (omega arith),
          ltb-eq-false (0xF0 + p) 0xE0 (omega arith),
          ltb-eq-false (0xF0 + p) 0xF0 (omega arith),
          ltb-eq-true (0xF0 + p) 0xF8 (omega arith),
        )
        refl

  continued :
      (wait acc low : ℕ)
      → p < 64
      → scalars_from (suc (suc wait)) acc low (escaped (0x80 + p) ∷ ps)
        ≡ scalars_from (suc wait) (acc * 64 + (0x80 + p - 0x80)) low ps
  unfolding scalars_from
  continued wait acc low h = ground (arith, h)

  finished :
      (acc low n : ℕ)
      → p < 64
      → acc * 64 + (0x80 + p - 0x80) ≡ n
      → is_allowed low n ≡ true
      → scalars_from 1 acc low (escaped (0x80 + p) ∷ ps) ≡ then_rest n ps
  unfolding scalars_from
  finished acc low n h e allowed = rw (e, allowed) (ground (arith, h))

module _ (n : ℕ) (ps : List Part) where
  read_two :
      n < 0x800
      → is_allowed 0x80 n ≡ true
      → scalars_from 0 0 0 (escaped (0xC0 + n / 64) ∷ escaped (0x80 + n % 64) ∷ ps) ≡ then_rest n ps
  read_two h allowed =
      begin_two (n / 64) _ (omega arith)
      ∙ finished (n % 64) ps _ 0x80 n (omega arith) (omega arith) allowed

  read_three :
      n < 0x10000
      → is_allowed 0x800 n ≡ true
      → scalars_from 0 0 0
          (escaped (0xE0 + n / 4096) ∷ escaped (0x80 + n / 64 % 64) ∷ escaped (0x80 + n % 64) ∷ ps)
        ≡ then_rest n ps
  read_three h allowed =
      begin_three (n / 4096) _ (omega arith)
      ∙ continued (n / 64 % 64) _ 0 _ 0x800 (omega arith)
      ∙ finished (n % 64) ps _ 0x800 n (omega arith) (omega arith) allowed

  read_four :
      n < 0x110000
      → is_allowed 0x10000 n ≡ true
      → scalars_from 0 0 0 (
          escaped (0xF0 + n / 262144)
          ∷ escaped (0x80 + n / 4096 % 64)
          ∷ escaped (0x80 + n / 64 % 64)
          ∷ escaped (0x80 + n % 64)
          ∷ ps)
        ≡ then_rest n ps
  read_four h allowed =
      begin_four (n / 262144) _ (omega arith)
      ∙ continued (n / 4096 % 64) _ 1 _ 0x10000 (omega arith)
      ∙ continued (n / 64 % 64) _ 0 _ 0x10000 (omega arith)
      ∙ finished (n % 64) ps _ 0x10000 n (omega arith) (omega arith) allowed

scalars_from-utf8 :
    (n : ℕ) (bs : List ℕ)
    → IsScalar n
    → scalars_from 0 0 0 (map escaped (utf8 n ++ bs)) ≡ then_rest n (map escaped bs)
unfolding utf8
scalars_from-utf8 n bs h = elim (Bool-cases (ltb n 0x80)) [
  | inl one ↦ rw one (read_one n _ (ground (arith, one)))
  | inr more ↦ elim (Bool-cases (ltb n 0x800)) [
    | inl two ↦ rw (more, two) (read_two n _ (ground (arith, two)) (ground (arith, h, more)))
    | inr wide ↦ elim (Bool-cases (ltb n 0x10000)) [
      | inl three ↦
          rw (more, wide, three) (read_three n _ (ground (arith, three)) (ground (arith, h, wide)))
      | inr four ↦ rw (more, wide, four) (read_four n _ h.0 (ground (arith, h, four)))
    ]
  ]
]

scalars_from-utf8_bytes :
    (ns : List ℕ) → All IsScalar ns → scalars_from 0 0 0 (map escaped (utf8_bytes ns)) ≡ some ns
scalars_from-utf8_bytes [] h = unfold scalars_from in refl
scalars_from-utf8_bytes (n ∷ ns) h =
    rw (scalars_from-utf8 n (utf8_bytes ns) h.0, scalars_from-utf8_bytes ns h.1) refl

All-append :
    (xs ys : List ℕ) → All (λ b. b < 256) xs → All (λ b. b < 256) ys → All (λ b. b < 256) (xs ++ ys)
All-append [] ys h k = k
All-append (x ∷ xs) ys h k = (h.0, All-append xs ys h.1 k)

utf8_bytes-lt : (ns : List ℕ) → All IsScalar ns → All (λ b. b < 256) (utf8_bytes ns)
utf8_bytes-lt [] h = tt
utf8_bytes-lt (n ∷ ns) h =
    All-append (utf8 n) (utf8_bytes ns) (utf8-lt n h.0.0) (utf8_bytes-lt ns h.1)

-- The escapes of the UTF-8 bytes of some scalar values are decoded to these values.
pub decode-escape_bytes :
    (ns : List ℕ)
    → All IsScalar ns
    → (decode_uri_component (escape_bytes (utf8_bytes ns)) ≡ some ns)
      × All (λ b. b < 256) (utf8_bytes ns)
unfolding decode_uri_component
decode-escape_bytes ns h =
    let small = utf8_bytes-lt ns h in
    (rw (parts_from-escape_bytes (utf8_bytes ns) small) (scalars_from-utf8_bytes ns h), small)
