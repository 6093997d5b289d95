-- ===== src/Views/Token/Laws.antt =====
-- The payload of a token is what its issuer encoded, and the card says what it holds.
use Prim.Native.Char.{char}
use Prim.Native.String.{[] as nil_text, ◌∷◌ as cons_text}
use codespace_operator.Prelude.{
  ℕ, ◌*◌, ◌≤◌, String, Char, code, ◌≡◌, ◌≢◌, ◌↔◌, refl, ◌∙◌, sym, ap, true, false, Option, none,
  some, List, [], ◌∷◌, ◌++◌, arith, ◌==◌, eq_iff, All, Bool-cases, inl, inr,
}
use codespace_operator.Prelude.Int.{pos}
use codespace_operator.Js.Text.{codes}
use codespace_operator.Js.Json.{Json, num, get}
use codespace_operator.Js.Base64.{base64url, atob-base64url, base64url_plain}
use codespace_operator.Js.Uri.Component.{IsScalar, utf8_bytes}
use codespace_operator.Js.Uri.Component.Laws.{decode-escape_bytes}
use codespace_operator.Client.Actions.{Platform, World}
use codespace_operator.Auth.{initial}
use codespace_operator.Auth.Laws.{Action, act_all, token_never_stored}
use codespace_operator.Views.Token.{
  split_on, decode_part, decode_jwt_payload, or_null, time_of, has_passed, token_card,
}

code-IsScalar : (c : Char) → IsScalar (code c)
code-IsScalar (char n p) = ground (arith, p)

codes-IsScalar : (s : String) → All IsScalar (codes s)
codes-IsScalar nil_text = tt
codes-IsScalar (cons_text c s) = (code-IsScalar c, codes-IsScalar s)

split_on-part :
    (sep : ℕ) (xs ys : List ℕ)
    → All (λ c. c ≢ sep) xs
    → split_on sep (xs ++ sep ∷ ys) ≡ xs ∷ split_on sep ys
unfolding split_on
split_on-part sep [] ys h = ground arith
split_on-part sep (x ∷ xs) ys h = rw (split_on-part sep xs ys h.1) (ground (arith, h.0))

-- A text in the form that RFC 7515 gives the payload of a token: its UTF-8 bytes in base64url.
abbrev pub encoded : String → List ℕ
encoded s = base64url (utf8_bytes (codes s))

decode_part-encoded :
    (parse : List ℕ → Option Json) (payload : String)
    → decode_part parse (encoded payload) ≡ parse (codes payload)
unfolding decode_part
decode_part-encoded parse payload =
    let (read, small) = decode-escape_bytes (codes payload) (codes-IsScalar payload) in
    rw (atob-base64url (utf8_bytes (codes payload)) small, read) refl

not_nil : (xs ys : List ℕ) → xs ++ 46 ∷ ys ≢ []
not_nil [] ys e = cc e
not_nil (x ∷ xs) ys e = cc e

is_there : (token : String) (xs ys : List ℕ) → codes token ≡ xs ++ 46 ∷ ys → (token == "") ≡ false
is_there token xs ys e = elim (Bool-cases (token == "")) [
  | inl empty ↦ absurd (not_nil xs ys (sym e ∙ ap codes ((eq_iff token "").0 empty)))
  | inr there ↦ there
]

-- A token of the form of RFC 7515, a header with no dot, the encoded payload and a signature, each in front
-- of a dot but the last, is decoded to what JSON.parse reads in the payload, and to null where that throws.
pub decode_jwt_payload-encoded :
    (parse : List ℕ → Option Json) (token payload : String) (header signature : List ℕ)
    → codes token ≡ header ++ 46 ∷ (encoded payload ++ 46 ∷ signature)
    → All (λ c. c ≢ 46) header
    → decode_jwt_payload parse (some token) ≡ or_null (parse (codes payload))
unfolding decode_jwt_payload
decode_jwt_payload-encoded parse token payload header signature e h =
    let small = (decode-escape_bytes (codes payload) (codes-IsScalar payload)).1 in
    let there = is_there token header (encoded payload ++ 46 ∷ signature) e in
    rw
      (
        there,
        e,
        split_on-part 46 header (encoded payload ++ 46 ∷ signature) h,
        split_on-part 46 (encoded payload) signature
            (base64url_plain (utf8_bytes (codes payload)) small),
        decode_part-encoded parse payload,
      )
      refl

-- With such a token, whose payload has a number of seconds as "exp", the card shows that expiry, and says
-- that the session has expired exactly when it has passed.
token_card_lem :
    (parse : List ℕ → Option Json) (now seconds : ℕ) (token payload : String)
    (header signature : List ℕ) (claims : Json) (iat exp : Option Json)
    → codes token ≡ header ++ 46 ∷ (encoded payload ++ 46 ∷ signature)
    → All (λ c. c ≢ 46) header
    → parse (codes payload) ≡ some claims
    → get claims "exp" ≡ some (num (pos seconds))
    → let card = token_card parse now (some token) iat exp in
      (card.expires ≡ some (pos seconds)) × ((card.expired ≡ true) ↔ (seconds * 1000 ≤ now))
unfolding token_card time_of has_passed
token_card_lem parse now seconds token payload header signature claims iat exp e h parsed given =
    let decoded = decode_jwt_payload-encoded parse token payload header signature e h in
    let there = is_there token header (encoded payload ++ 46 ∷ signature) e in
    rw (there, decoded, parsed, given) (refl, ground arith)

-- The session of a cookie: whatever the page's hook did, it holds no token, and where the answer of the
-- user's introspection has no times of its own the card says that the session is active, without any time.
cookie_session_active :
    (parse : List ℕ → Option Json) (now : ℕ) (p : Platform) (to_lower_case : String → String)
    (stored : Option String) (w : World) (xs : List Action)
    → let a = (act_all p to_lower_case xs (initial stored, w)).0 in
      token_card parse now a.token none none
      ≡ record { expired = false; issued = none; expires = none }
unfolding token_card time_of
cookie_session_active parse now p to_lower_case stored w xs =
    rw (token_never_stored p to_lower_case stored w xs) refl
