-- ===== src/Js/Base64.antt =====
-- atob, the forgiving decoding of base64, over code points; and the base64url encoding without padding
-- of RFC 7515, which it is compared with.
use codespace_operator.Prelude.{
  ℕ, ◌+◌, ◌-◌, ◌*◌, ◌/◌, ◌%◌, ◌<◌, ◌≡◌, ◌≢◌, refl, Bool, true, false, not, ◌&&◌, ◌||◌, Option, none,
  some, List, [], ◌∷◌, map, arith, ltb, leb, eqb, if◌then◌else◌, filter, length, All,
}
use codespace_operator.Js.Caught.{◌>>=◌}

-- The value of a character of the alphabet A-Z a-z 0-9 + /.
unfoldable pub sextet : ℕ → Option ℕ
sextet c =
    if leb 65 c && leb c 90
    then some (c - 65)
    else if leb 97 c && leb c 122
    then some (c - 71)
    else if leb 48 c && leb c 57
    then some (c + 4)
    else if eqb c 43
    then some 62
    else if eqb c 47
    then some 63
    else none

-- ASCII whitespace, which is taken out
abbrev is_blank : ℕ → Bool
is_blank c = eqb c 9 || eqb c 10 || eqb c 12 || eqb c 13 || eqb c 32

-- What may be taken off at the end of a text whose length divides by four: "=" or "==".
abbrev is_padding : List ℕ → Bool
is_padding [] = false
is_padding (c ∷ []) = eqb c 61
is_padding (c ∷ d ∷ []) = eqb c 61 && eqb d 61
is_padding (c ∷ d ∷ e ∷ cs) = false

unfoldable pub drop_padding : List ℕ → List ℕ
drop_padding [] = []
drop_padding (c ∷ cs) = let rest = drop_padding cs in if is_padding (c ∷ cs) then [] else c ∷ rest

unfoldable pub sextets : List ℕ → Option (List ℕ)
sextets [] = some []
sextets (c ∷ cs) = do n ← sextet c; ns ← sextets cs; some (n ∷ ns)

-- The bytes of whole groups; a group of two or three characters leaves bits over, which are dropped,
-- and a single one is refused.
unfoldable pub bytes_of : List ℕ → Option (List ℕ)
bytes_of [] = some []
bytes_of (a ∷ []) = none
bytes_of (a ∷ b ∷ []) = some ((a * 4 + b / 16) ∷ [])
bytes_of (a ∷ b ∷ c ∷ []) = some ((a * 4 + b / 16) ∷ (b % 16 * 16 + c / 4) ∷ [])
bytes_of (a ∷ b ∷ c ∷ d ∷ cs) = do
  rest ← bytes_of cs
  some ((a * 4 + b / 16) ∷ (b % 16 * 16 + c / 4) ∷ (c % 4 * 64 + d) ∷ rest)

-- `atob(s)`: the bytes, or none where it throws.
unfoldable pub atob : List ℕ → Option (List ℕ)
atob cs =
    let given = filter (λ c. not (is_blank c)) cs in
    let trimmed = if eqb (length given % 4) 0 then drop_padding given else given in
    do ns ← sextets trimmed; bytes_of ns

atob_tests :
    (atob (89 ∷ 81 ∷ 61 ∷ 61 ∷ []) ≡ some (97 ∷ []))
    × (atob (89 ∷ 81 ∷ []) ≡ some (97 ∷ []))
    × (atob (89 ∷ []) ≡ none)
    × (atob (89 ∷ 81 ∷ 61 ∷ []) ≡ none)
unfolding atob filter drop_padding sextets sextet bytes_of
atob_tests = (refl, refl, refl, refl)

-- `s.replace(/-/g, "+").replace(/_/g, "/")`, on one character
abbrev pub to_standard : ℕ → ℕ
to_standard c = if eqb c 45 then 43 else if eqb c 95 then 47 else c

-- RFC 7515: A-Z a-z 0-9 - _, without padding.
abbrev pub url_char : ℕ → ℕ
url_char n =
    if ltb n 26
    then n + 65
    else if ltb n 52
    then n + 71
    else if ltb n 62
    then n - 4
    else if eqb n 62
    then 45
    else 95

abbrev groups : List ℕ → List ℕ
groups [] = []
groups (a ∷ []) = (a / 4) ∷ (a % 4 * 16) ∷ []
groups (a ∷ b ∷ []) = (a / 4) ∷ (a % 4 * 16 + b / 16) ∷ (b % 16 * 4) ∷ []
groups (a ∷ b ∷ c ∷ bs) =
    (a / 4) ∷ (a % 4 * 16 + b / 16) ∷ (b % 16 * 4 + c / 64) ∷ (c % 64) ∷ groups bs

abbrev pub base64url : List ℕ → List ℕ
base64url bs = map url_char (groups bs)

groups-lt : (bs : List ℕ) → All (λ b. b < 256) bs → All (λ n. n < 64) (groups bs)
groups-lt [] h = tt
groups-lt (a ∷ []) h = (ground (arith, h.0), (ground (arith, h.0), tt))
groups-lt (a ∷ b ∷ []) h =
    (ground (arith, h.0), (ground (arith, h.0, h.1.0), (ground (arith, h.1.0), tt)))
groups-lt (a ∷ b ∷ c ∷ bs) h = (
  ground (arith, h.0),
  (
    ground (arith, h.0, h.1.0),
    (ground (arith, h.1.0, h.1.1.0), (ground (arith, h.1.1.0), groups-lt bs h.1.1.1)),
  ),
)

bytes_of-groups : (bs : List ℕ) → All (λ b. b < 256) bs → bytes_of (groups bs) ≡ some bs
unfolding bytes_of
bytes_of-groups [] h = refl
bytes_of-groups (a ∷ []) h = ground (arith, h.0)
bytes_of-groups (a ∷ b ∷ []) h = ground (arith, h.0, h.1.0)
bytes_of-groups (a ∷ b ∷ c ∷ bs) h =
    let rest = bytes_of-groups bs h.1.1.1 in ground (arith, h.0, h.1.0, h.1.1.0, rest)

sextet-url_char : (n : ℕ) → n < 64 → sextet (to_standard (url_char n)) ≡ some n
unfolding sextet
sextet-url_char n h = ground arith

url_char_kept :
    (n : ℕ)
    → n < 64
    → (is_blank (to_standard (url_char n)) ≡ false) × (to_standard (url_char n) ≢ 61)
url_char_kept n h = ground arith

-- What the code does to the characters of base64url before it calls atob.
abbrev standard : List ℕ → List ℕ
standard ns = map to_standard (map url_char ns)

filter-standard :
    (ns : List ℕ)
    → All (λ n. n < 64) ns
    → filter (λ c. not (is_blank c)) (standard ns) ≡ standard ns
unfolding filter
filter-standard [] h = refl
filter-standard (n ∷ ns) h = rw ((url_char_kept n h.0).0, filter-standard ns h.1) refl

drop_padding-standard :
    (ns : List ℕ) → All (λ n. n < 64) ns → drop_padding (standard ns) ≡ standard ns
unfolding drop_padding
drop_padding-standard [] h = refl
drop_padding-standard (n ∷ ns) h =
    rw (drop_padding-standard ns h.1)
      (if_not (is_padding (standard (n ∷ ns))) (not_padding n ns h.0))
  where
    if_not : (b : Bool) → b ≡ false → (if b then [] else standard (n ∷ ns)) ≡ standard (n ∷ ns)
    if_not b e = rw e refl

    not_padding : (m : ℕ) (ms : List ℕ) → m < 64 → is_padding (standard (m ∷ ms)) ≡ false
    not_padding m [] k = ground (arith, url_char_kept m k)
    not_padding m (m' ∷ []) k = ground (arith, url_char_kept m k)
    not_padding m (m' ∷ m'' ∷ ms) k = refl

sextets-standard : (ns : List ℕ) → All (λ n. n < 64) ns → sextets (standard ns) ≡ some ns
unfolding sextets
sextets-standard [] h = refl
sextets-standard (n ∷ ns) h = rw (sextet-url_char n h.0, sextets-standard ns h.1) refl

-- atob reads what base64url wrote, when its characters are those of base64.
pub atob-base64url :
    (bs : List ℕ) → All (λ b. b < 256) bs → atob (map to_standard (base64url bs)) ≡ some bs
unfolding atob
atob-base64url bs h =
    let small = groups-lt bs h in
    rw (filter-standard (groups bs) small, drop_padding-standard (groups bs) small)
      (either_way (eqb (length (standard (groups bs)) % 4) 0))
  where
    either_way :
        (b : Bool)
        → ((sextets (if b then standard (groups bs) else standard (groups bs))) >>= bytes_of)
          ≡ some bs
    either_way true = rw (sextets-standard (groups bs) (groups-lt bs h)) (bytes_of-groups bs h)
    either_way false = rw (sextets-standard (groups bs) (groups-lt bs h)) (bytes_of-groups bs h)

-- No character of base64url is a dot.
pub base64url_plain : (bs : List ℕ) → All (λ b. b < 256) bs → All (λ c. c ≢ 46) (base64url bs)
base64url_plain bs h = plain (groups bs) (groups-lt bs h)
  where
    plain : (ns : List ℕ) → All (λ n. n < 64) ns → All (λ c. c ≢ 46) (map url_char ns)
    plain [] k = tt
    plain (n ∷ ns) k = (ground (arith, k.0), plain ns k.1)
