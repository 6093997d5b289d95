-- ===== src/Sessions/Stream/Broken.antt =====
-- What the updaters throw on messages that are no session events, and the reading of a property that
-- may be missing.
use codespace_operator.Prelude.{
  ℕ, String, ◌≡◌, ◌||◌, refl, Bool, true, false, Option, none, some, List, [], ◌∷◌, if◌then◌else◌,
}
use codespace_operator.Js.Json.{Json, null, bool, num, str, arr, obj, get}
use codespace_operator.Js.Value.{
  Value, Thrown, exception, thrown, Throws, returns, throws, ◌>>=◌, Engine, read, template,
  is_textless, text_of, filter_throws, find_index_throws, shifted,
}
use codespace_operator.Prelude.Int.{ℤ}
use codespace_operator.Sessions.Stream.{
  name_of, is_named_by, is_other, replaced, update_rows, update_targets,
}

-- `throws` only of a TypeError.
abbrev pub IsTyped : {A : Type 0} → Throws A → Type 0
IsTyped (returns a) = Unit
IsTyped (throws (exception name m)) = name ≡ "TypeError"
IsTyped (throws (thrown v)) = ⊥

module _ {A B : Type 0} where
  pub IsTyped-bind :
      (m : Throws A) (f : A → Throws B) → IsTyped m → ((a : A) → IsTyped (f a)) → IsTyped (m >>= f)
  IsTyped-bind (returns a) f h k = k a
  IsTyped-bind (throws (exception name m)) f h k = h
  IsTyped-bind (throws (thrown v)) f h k = h

pub IsTyped-returns : {A : Type 0} (a : A) → IsTyped (returns a)
IsTyped-returns a = tt

IsTyped-if :
    {A : Type 0} (b : Bool) (m n : Throws A) → IsTyped m → IsTyped n → IsTyped (if b then m else n)
IsTyped-if true m n h k = h
IsTyped-if false m n h k = k

IsTyped-read : (engine : Engine) (key : String) (v : Value) → IsTyped (read engine key v)
unfolding read
IsTyped-read engine key none = refl
IsTyped-read engine key (some null) = refl
IsTyped-read engine key (some (bool b)) = tt
IsTyped-read engine key (some (num n)) = tt
IsTyped-read engine key (some (str s)) = tt
IsTyped-read engine key (some (arr vs)) = tt
IsTyped-read engine key (some (obj fs)) = tt

IsTyped-template : (engine : Engine) (v : Value) → IsTyped (template engine v)
unfolding template
IsTyped-template engine v = IsTyped-if (is_textless v) _ _ refl tt

ruleset typed_rules = (IsTyped-bind, IsTyped-read, IsTyped-template, IsTyped-returns)

filter_throws-IsTyped :
    (p : Value → Throws Bool) (xs : List Value)
    → ((x : Value) → IsTyped (p x))
    → IsTyped (filter_throws p xs)
unfolding filter_throws
filter_throws-IsTyped p [] h = tt
filter_throws-IsTyped p (x ∷ xs) h =
    IsTyped-bind (p x) _ (h x)
      (λ keep. IsTyped-bind (filter_throws p xs) _ (filter_throws-IsTyped p xs h) (λ rest. tt))

shifted-IsTyped : (m : Throws (Option ℕ)) → IsTyped m → IsTyped (shifted m)
shifted-IsTyped (returns none) h = tt
shifted-IsTyped (returns (some i)) h = tt
shifted-IsTyped (throws (exception name m)) h = h
shifted-IsTyped (throws (thrown v)) h = h

find_index_throws-IsTyped :
    (p : Value → Throws Bool) (xs : List Value)
    → ((x : Value) → IsTyped (p x))
    → IsTyped (find_index_throws p xs)
unfolding find_index_throws
find_index_throws-IsTyped p [] h = tt
find_index_throws-IsTyped p (x ∷ xs) h =
    IsTyped-bind (p x) _ (h x)
      (λ found. IsTyped-if found _ _ tt (shifted-IsTyped _ (find_index_throws-IsTyped p xs h)))

module _ (engine : Engine) where
  name_of-IsTyped : (x : Value) → IsTyped (name_of engine x)
  unfolding name_of
  name_of-IsTyped x = search typed_rules

  is_named_by-IsTyped : (ev x : Value) → IsTyped (is_named_by engine ev x)
  unfolding is_named_by
  is_named_by-IsTyped ev x = search (name_of-IsTyped, typed_rules)

  is_other-IsTyped : (ev x : Value) → IsTyped (is_other engine ev x)
  unfolding is_other
  is_other-IsTyped ev x = search (is_named_by-IsTyped, typed_rules)

  replaced-IsTyped : (ev : Value) (rows : List Value) → IsTyped (replaced engine ev rows)
  unfolding replaced
  replaced-IsTyped ev rows =
      IsTyped-bind _ _ (find_index_throws-IsTyped _ rows (is_named_by-IsTyped ev))
        (λ i. search typed_rules)

  pub update_rows-IsTyped : (ev : Value) (rows : List Value) → IsTyped (update_rows engine ev rows)
  unfolding update_rows
  update_rows-IsTyped ev rows = IsTyped-bind _ _ (IsTyped-read engine "type" ev) (λ t.
      IsTyped-if _ _ _ (filter_throws-IsTyped _ rows (is_other-IsTyped ev))
        (replaced-IsTyped ev rows))

  pub update_targets-IsTyped :
      (ev : Value) (p : List (String × ℤ)) → IsTyped (update_targets engine ev p)
  unfolding update_targets
  update_targets-IsTyped ev p =
      IsTyped-bind _ _ (IsTyped-read engine "object" ev)
        (λ o. IsTyped-bind _ _ (IsTyped-read engine "metadata" o) (λ m. search typed_rules))

-- `v?.key`
abbrev pub property : String → Value → Value
property key none = none
property key (some v) = get v key

abbrev pub is_nullish : Value → Bool
is_nullish none = true
is_nullish (some null) = true
is_nullish (some _) = false

-- `ev?.object?.metadata`
abbrev pub metadata_of : Json → Value
metadata_of ev = property "metadata" (property "object" (some ev))

-- An event of which the updater of the targets cannot make a key: there is nothing under its metadata, or
-- the namespace or the name there has no text.
abbrev pub is_keyless : Json → Bool
is_keyless ev =
    is_nullish (metadata_of ev)
    || is_textless (property "namespace" (metadata_of ev))
    || is_textless (property "name" (metadata_of ev))

pub template-text :
    (engine : Engine) (v : Value) → is_textless v ≡ false → template engine v ≡ returns (text_of v)
unfolding template
template-text engine v h = rw h refl

pub template-textless :
    (engine : Engine) (v : Value)
    → is_textless v ≡ true
    → template engine v ≡ throws (exception "TypeError" (engine v "toString"))
unfolding template
template-textless engine v h = rw h refl

pub read-present :
    (engine : Engine) (key : String) (v : Value)
    → is_nullish v ≡ false
    → read engine key v ≡ returns (property key v)
unfolding read
read-present engine key none h = cc h
read-present engine key (some null) h = cc h
read-present engine key (some (bool b)) h = refl
read-present engine key (some (num n)) h = refl
read-present engine key (some (str s)) h = refl
read-present engine key (some (arr vs)) h = refl
read-present engine key (some (obj fs)) h = refl

pub read-nullish :
    (engine : Engine) (key : String) (v : Value)
    → is_nullish v ≡ true
    → (e : Thrown) × (read engine key v ≡ throws e)
unfolding read
read-nullish engine key none h = (_, refl)
read-nullish engine key (some null) h = (_, refl)
read-nullish engine key (some (bool b)) h = cc h
read-nullish engine key (some (num n)) h = cc h
read-nullish engine key (some (str s)) h = cc h
read-nullish engine key (some (arr vs)) h = cc h
read-nullish engine key (some (obj fs)) h = cc h

pub parent-present :
    (key : String) (v : Value) → is_nullish (property key v) ≡ false → is_nullish v ≡ false
unfolding get
parent-present key none h = h
parent-present key (some null) h = h
parent-present key (some (bool b)) h = refl
parent-present key (some (num n)) h = refl
parent-present key (some (str s)) h = refl
parent-present key (some (arr vs)) h = refl
parent-present key (some (obj fs)) h = refl
