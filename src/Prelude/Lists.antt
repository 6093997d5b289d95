-- ===== src/Prelude/Lists.antt =====
-- Lists over the native numbers, and the array methods of JavaScript that the program calls.
use Prim.Native.Nat.{ℕ, zero, suc, ◌≤◌}
use Prim.Native.String.{String}
use mathlib.Core.Path.{◌≡◌, refl, sym, ap}
use mathlib.Core.Logic.{◌⊎◌, inl, inr, ◌↔◌}
use mathlib.Core.Bool.{Bool, true, false, ◌||◌}
use mathlib.Core.Option.{Option, none, some}
use mathlib.Core.List.{List, [], ◌∷◌, ◌++◌}
use native.Mathlib.Omega.{arith}
use text.Mathlib.Text.{◌==◌}
use text.Mathlib.TextEquality.{eq_iff}
use codespace_operator.Prelude.Tests.{if◌then◌else◌, Bool-cases}

module _ {ℓ} {A : Type ℓ} where
  abbrev pub length : List A → ℕ
  length [] = 0
  length (x ∷ xs) = suc (length xs)

  -- `xs.slice(0, n)`
  unfoldable pub take : ℕ → List A → List A
  take zero xs = []
  take (suc n) [] = []
  take (suc n) (x ∷ xs) = x ∷ take n xs

  -- `xs[0]`
  abbrev pub first : List A → Option A
  first [] = none
  first (x ∷ xs) = some x

  -- `xs.filter(p)`
  unfoldable pub filter : (A → Bool) → List A → List A
  filter p [] = []
  filter p (x ∷ xs) = let rest = filter p xs in if p x then x ∷ rest else rest

  -- `xs.find(p)`
  unfoldable pub find : (A → Bool) → List A → Option A
  find p [] = none
  find p (x ∷ xs) = let rest = find p xs in if p x then some x else rest

  abbrev pub All {κ} : (A → Type κ) → List A → Type κ
  All P [] = Unit
  All P (x ∷ xs) = P x × All P xs

  pub length-take : (n : ℕ) (xs : List A) → length (take n xs) ≤ n
  unfolding take
  length-take zero xs = omega arith
  length-take (suc n) [] = omega arith
  length-take (suc n) (x ∷ xs) = omega (arith, length-take n xs)

module _ {A : Type 0} where
  -- `x` stands in the list; by recursion, so that tactics take it apart.
  abbrev pub In : A → List A → Type 0
  In a [] = ⊥
  In a (x ∷ xs) = (a ≡ x) ⊎ In a xs

  pub In-filter :
      (p : A → Bool) (a : A) (xs : List A) → In a (filter p xs) ↔ (In a xs × (p a ≡ true))
  unfolding filter
  In-filter p a [] = (λ h. absurd h, λ h. h.0)
  In-filter p a (x ∷ xs) = elim (Bool-cases (p x)) [
    | inl yes_x ↦ rw yes_x (
      λ h. elim h [
        | inl e ↦ (inl e, rw e yes_x)
        | inr m ↦ let (i, q) = (In-filter p a xs).0 m in (inr i, q)
      ],
      λ h. elim h.0 [ inl e ↦ inl e | inr m ↦ inr ((In-filter p a xs).1 (m, h.1)) ],
    )
    | inr no_x ↦ rw no_x (
      λ h. let (i, q) = (In-filter p a xs).0 h in (inr i, q),
      λ h. elim h.0 [
        | inl e ↦ absurd (cc (ap p e, no_x, h.1))
        | inr m ↦ (In-filter p a xs).1 (m, h.1)
      ],
    )
  ]

  pub find-some : (p : A → Bool) (xs : List A) (a : A) → find p xs ≡ some a → In a xs × (p a ≡ true)
  unfolding find
  find-some p [] a h = cc
  find-some p (x ∷ xs) a h = elim (Bool-cases (p x)) [
    | inl e ↦ let same : x ≡ a = ground arith in (inl (sym same), rw same at e)
    | inr e ↦ let (i, q) = find-some p xs a (ground arith) in (inr i, q)
  ]

  pub All-of_In {κ} : (P : A → Type κ) (xs : List A) → ((a : A) → In a xs → P a) → All P xs
  All-of_In P [] h = tt
  All-of_In P (x ∷ xs) h = (h x (inl refl), All-of_In P xs (λ a m. h a (inr m)))

  pub In_of_All {κ} : (P : A → Type κ) (xs : List A) → All P xs → (a : A) → In a xs → P a
  In_of_All P [] h a m = absurd m
  In_of_All P (x ∷ xs) h a m = elim m [ inl e ↦ subst⁻ P e h.0 | inr i ↦ In_of_All P xs h.1 a i ]
    where
      subst⁻ : (Q : A → Type κ) {x y : A} → x ≡ y → Q y → Q x
      subst⁻ Q e q = rw e q

  pub In-append : (a : A) (xs ys : List A) → In a (xs ++ ys) ↔ (In a xs ⊎ In a ys)
  In-append a [] ys = (λ h. inr h, λ h. elim h [ inl m ↦ absurd m | inr m ↦ m ])
  In-append a (x ∷ xs) ys = (
    λ h. elim h [
      | inl e ↦ inl (inl e)
      | inr m ↦ elim ((In-append a xs ys).0 m) [ inl i ↦ inl (inr i) | inr i ↦ inr i ]
    ],
    λ h. elim h [
      | inl m ↦ elim m [ inl e ↦ inl e | inr i ↦ inr ((In-append a xs ys).1 (inl i)) ]
      | inr m ↦ inr ((In-append a xs ys).1 (inr m))
    ],
  )

-- `xs.includes(s)`, and membership in a `Set` of texts
unfoldable pub includes : List String → String → Bool
includes [] s = false
includes (x ∷ xs) s = x == s || includes xs s

pub includes_iff : (xs : List String) (s : String) → (includes xs s ≡ true) ↔ In s xs
unfolding includes
includes_iff [] s = (λ h. cc h, λ h. absurd h)
includes_iff (x ∷ xs) s = grind (arith, eq_iff x s, includes_iff xs s)

module _ {ℓ} {V : Type ℓ} where
  -- `o[key]` on a plain object, as the list of its own properties in the order of `Object.entries`
  unfoldable pub lookup : String → List (String × V) → Option V
  lookup key [] = none
  lookup key ((own, x) ∷ o) = let later = lookup key o in if own == key then some x else later

  -- `const { [key]: _, ...rest } = o`
  unfoldable pub without : String → List (String × V) → List (String × V)
  without key [] = []
  without key ((own, x) ∷ o) =
      let rest = without key o in if own == key then rest else (own, x) ∷ rest

  -- `{ ...o, [key]: x }`; a key that is there keeps its place
  unfoldable pub insert : String → V → List (String × V) → List (String × V)
  insert key x [] = (key, x) ∷ []
  insert key x ((own, old) ∷ o) =
      let rest = insert key x o in if own == key then (key, x) ∷ o else (own, old) ∷ rest

  pub lookup-without :
      (key other : String) (o : List (String × V))
      → lookup other (without key o) ≡ (if key == other then none else lookup other o)
  unfolding lookup without
  lookup-without key other [] = ground arith
  lookup-without key other ((own, x) ∷ o) =
      let here = eq_iff own key in
      let there = eq_iff own other in
      ground (arith, lookup-without key other o, here, there, eq_iff key other)

  pub lookup-insert :
      (key other : String) (x : V) (o : List (String × V))
      → lookup other (insert key x o) ≡ (if key == other then some x else lookup other o)
  unfolding lookup insert
  lookup-insert key other x [] = refl
  lookup-insert key other x ((own, old) ∷ o) =
      let here = eq_iff own key in
      let there = eq_iff own other in
      ground (arith, lookup-insert key other x o, here, there, eq_iff key other)

  -- The names are those of one object: none stands twice.
  abbrev pub HasDistinctKeys : List (String × V) → Type ℓ
  HasDistinctKeys [] = Unit
  HasDistinctKeys ((k, v) ∷ m) = (lookup k m ≡ none) × HasDistinctKeys m
