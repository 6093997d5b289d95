-- ===== src/Js/Value.antt =====
-- What the code reads of values that it does not check: properties of null and undefined throw, `===`
-- compares, a template prints. An exception is kept as a value, since any value can be thrown.
use codespace_operator.Prelude.{
  ℕ, suc, String, Bool, true, false, not, Option, none, some, List, [], ◌∷◌, ◌==◌, ◌||◌,
  if◌then◌else◌,
}
use codespace_operator.Prelude.Int.{eq_ℤ}
use codespace_operator.Js.Json.{
  Json, null, bool, num, str, arr, obj, Items, nil, cons, get, to_text,
}

-- A value of the language: none is undefined.
abbrev pub Value : Type 0
Value = Option Json

-- An Error object, or any other value that is thrown.
pub data Thrown : Type 0 where
  exception : String → String → Thrown
  thrown : Value → Thrown

-- A computation that may throw.
pub data Throws (A : Type 0) : Type 0 where
  returns : A → Throws A
  throws : Thrown → Throws A

infixl 5 ◌>>=◌
abbrev pub ◌>>=◌ : {A B : Type 0} → Throws A → (A → Throws B) → Throws B
throws e >>= next = throws e
returns a >>= next = next a

-- The text of the engine's TypeError for a property of null or of undefined, and, with "toString", for a
-- value that has no text.
abbrev pub Engine : Type 0
Engine = Value → String → String

-- `v.key`
unfoldable pub read : Engine → String → Value → Throws Value
read engine key none = throws (exception "TypeError" (engine none key))
read engine key (some null) = throws (exception "TypeError" (engine (some null) key))
read engine key (some v) = returns (get v key)

-- `a === b`. Two objects are never the same here: each stands for one that JSON.parse has just made.
unfoldable pub strict_equal : Value → Value → Bool
strict_equal none none = true
strict_equal (some null) (some null) = true
strict_equal (some (bool a)) (some (bool b)) = if a then b else not b
strict_equal (some (num a)) (some (num b)) = eq_ℤ a b
strict_equal (some (str a)) (some (str b)) = a == b
strict_equal _ _ = false

-- Whether `String(v)` fails: an object of JSON with a "toString" of its own, which is no function, has no
-- text; neither has an array with such an element.
unfoldable mutual
  unfolding get

  pub has_no_text : Json → Bool
  has_no_text (arr vs) = any_no_text vs
  has_no_text (obj fs) = elim (get (obj fs) "toString") [ none ↦ false | some _ ↦ true ]
  has_no_text _ = false

  pub any_no_text : Items → Bool
  any_no_text nil = false
  any_no_text (cons v vs) = has_no_text v || any_no_text vs

abbrev pub is_textless : Value → Bool
is_textless none = false
is_textless (some v) = has_no_text v

abbrev pub text_of : Value → String
text_of none = "undefined"
text_of (some v) = to_text v

-- `${v}`; the TypeError of a value without a text is that of its "toString".
unfoldable pub template : Engine → Value → Throws String
template engine v =
    if is_textless v
    then throws (exception "TypeError" (engine v "toString"))
    else returns (text_of v)

abbrev pub shifted : Throws (Option ℕ) → Throws (Option ℕ)
shifted (throws e) = throws e
shifted (returns none) = returns none
shifted (returns (some n)) = returns (some (suc n))

module _ {A : Type 0} where
  -- `xs.filter(p)` with a test that may throw, at the first element for which it does
  unfoldable pub filter_throws : (A → Throws Bool) → List A → Throws (List A)
  filter_throws p [] = returns []
  filter_throws p (x ∷ xs) = do
    keep ← p x
    rest ← filter_throws p xs
    returns (if keep then x ∷ rest else rest)

  -- `xs.findIndex(p)`, which asks no further once it has found one
  unfoldable pub find_index_throws : (A → Throws Bool) → List A → Throws (Option ℕ)
  find_index_throws p [] = returns none
  find_index_throws p (x ∷ xs) =
      let later = shifted (find_index_throws p xs) in
      p x >>= λ found. if found then returns (some 0) else later
