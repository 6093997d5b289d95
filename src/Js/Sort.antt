-- ===== src/Js/Sort.antt =====
-- Array.prototype.sort with no comparator: texts in the order of their UTF-16 code units.
use mathlib.Core.List.{Perm}
use mathlib.Core.List.Perm
use codespace_operator.Prelude.{
  ℕ, ◌+◌, ◌-◌, ◌/◌, ◌%◌, String, code, ◌≡◌, refl, Bool, true, false, List, [], ◌∷◌, arith, ltb,
  if◌then◌else◌, Bool-cases, inl, inr, All, In, ◌↔◌, length, suc,
}

-- The UTF-16 code units of a text.
units : String → List ℕ
units String.[] = []
units (String.◌∷◌ c s) =
    let n = code c in
    let rest = units s in
    if ltb n 0x10000
    then n ∷ rest
    else (0xD800 + (n - 0x10000) / 1024) ∷ (0xDC00 + (n - 0x10000) % 1024) ∷ rest

le_units : List ℕ → List ℕ → Bool
le_units [] ys = true
le_units (x ∷ xs) [] = false
le_units (x ∷ xs) (y ∷ ys) =
    let rest = le_units xs ys in if ltb x y then true else if ltb y x then false else rest

unfoldable pub le_text : String → String → Bool
unfolding units le_units
le_text s t = le_units (units s) (units t)

insert_text : String → List String → List String
insert_text s [] = s ∷ []
insert_text s (t ∷ ts) = let rest = insert_text s ts in if le_text s t then s ∷ t ∷ ts else t ∷ rest

-- Equal texts cannot be told apart, so every sorting algorithm has this result.
unfoldable pub sort : List String → List String
unfolding insert_text le_text
sort [] = []
sort (s ∷ ts) = insert_text s (sort ts)

abbrev pub IsSorted : List String → Type 0
IsSorted [] = Unit
IsSorted (s ∷ ts) = All (λ t. le_text s t ≡ true) ts × IsSorted ts

le-units_total : (xs ys : List ℕ) → le_units xs ys ≡ false → le_units ys xs ≡ true
unfolding le_units
le-units_total [] ys h = ground arith
le-units_total (x ∷ xs) [] h = refl
le-units_total (x ∷ xs) (y ∷ ys) h = ground (arith, le-units_total xs ys)

le-units_trans :
    (xs ys zs : List ℕ) → le_units xs ys ≡ true → le_units ys zs ≡ true → le_units xs zs ≡ true
unfolding le_units
le-units_trans [] ys zs h k = refl
le-units_trans (x ∷ xs) [] zs h k = ground arith
le-units_trans (x ∷ xs) (y ∷ ys) [] h k = ground arith
le-units_trans (x ∷ xs) (y ∷ ys) (z ∷ zs) h k = ground (arith, le-units_trans xs ys zs)

le-text_total : (s t : String) → le_text s t ≡ false → le_text t s ≡ true
unfolding le_text
le-text_total s t h = le-units_total (units s) (units t) h

le-text_trans : (s t u : String) → le_text s t ≡ true → le_text t u ≡ true → le_text s u ≡ true
unfolding le_text
le-text_trans s t u h k = le-units_trans (units s) (units t) (units u) h k

All-trans :
    (s t : String) (ts : List String)
    → le_text s t ≡ true
    → All (λ u. le_text t u ≡ true) ts
    → All (λ u. le_text s u ≡ true) ts
All-trans s t [] h k = tt
All-trans s t (u ∷ ts) h k = (le-text_trans s t u h k.0, All-trans s t ts h k.1)

All-insert_text :
    (P : String → Type 0) (s : String) (ts : List String)
    → P s
    → All P ts
    → All P (insert_text s ts)
unfolding insert_text
All-insert_text P s [] p h = (p, tt)
All-insert_text P s (t ∷ ts) p h = elim (Bool-cases (le_text s t)) [
  | inl e ↦ rw e (p, h)
  | inr e ↦ rw e (h.0, All-insert_text P s ts p h.1)
]

insert_text-IsSorted : (s : String) (ts : List String) → IsSorted ts → IsSorted (insert_text s ts)
unfolding insert_text
insert_text-IsSorted s [] h = (tt, tt)
insert_text-IsSorted s (t ∷ ts) h = elim (Bool-cases (le_text s t)) [
  | inl e ↦ rw e ((e, All-trans s t ts e h.0), h)
  | inr e ↦ rw e (
    All-insert_text (λ u. le_text t u ≡ true) s ts (le-text_total s t e) h.0,
    insert_text-IsSorted s ts h.1,
  )
]

pub sort-IsSorted : (xs : List String) → IsSorted (sort xs)
unfolding sort
sort-IsSorted [] = tt
sort-IsSorted (x ∷ xs) = insert_text-IsSorted x (sort xs) (sort-IsSorted xs)

insert_text-perm : (s : String) (ts : List String) → Perm (insert_text s ts) (s ∷ ts)
unfolding insert_text
insert_text-perm s [] = Perm.refl (s ∷ [])
insert_text-perm s (t ∷ ts) = elim (Bool-cases (le_text s t)) [
  | inl e ↦ rw e (Perm.refl (s ∷ t ∷ ts))
  | inr e ↦ rw e (Perm.trans (Perm.cons t (insert_text-perm s ts)) (Perm.swap s t ts))
]

pub sort-perm : (xs : List String) → Perm (sort xs) xs
unfolding sort
sort-perm [] = Perm.refl []
sort-perm (x ∷ xs) = Perm.trans (insert_text-perm x (sort xs)) (Perm.cons x (sort-perm xs))

In-insert_text : (a s : String) (ts : List String) → In a (insert_text s ts) ↔ In a (s ∷ ts)
unfolding insert_text
In-insert_text a s [] = (λ h. h, λ h. h)
In-insert_text a s (t ∷ ts) = grind (arith, In-insert_text a s ts)

pub In-sort : (a : String) (xs : List String) → In a (sort xs) ↔ In a xs
unfolding sort
In-sort a [] = (λ h. h, λ h. h)
In-sort a (x ∷ xs) = grind (arith, In-insert_text a x (sort xs), In-sort a xs)

length-insert_text : (s : String) (ts : List String) → length (insert_text s ts) ≡ suc (length ts)
unfolding insert_text
length-insert_text s [] = refl
length-insert_text s (t ∷ ts) = ground (arith, length-insert_text s ts)

pub length-sort : (xs : List String) → length (sort xs) ≡ length xs
unfolding sort
length-sort [] = refl
length-sort (x ∷ xs) = ground (arith, length-insert_text x (sort xs), length-sort xs)

sort_test : sort ("b" ∷ "Z" ∷ "a-1" ∷ "a" ∷ []) ≡ "Z" ∷ "a" ∷ "a-1" ∷ "b" ∷ []
unfolding sort
sort_test = refl
