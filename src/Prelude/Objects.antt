-- ===== src/Prelude/Objects.antt =====
-- The names of an object's entries that pass a test.
use Prim.Native.String.{String}
use mathlib.Core.Path.{◌≡◌, refl, sym}
use mathlib.Core.Logic.{◌⊎◌, inl, inr, ◌≢◌, ◌↔◌}
use mathlib.Core.Bool.{Bool, true}
use mathlib.Core.Option.{none, some}
use mathlib.Core.List.{List, [], ◌∷◌, map}
use native.Mathlib.Omega.{arith}
use text.Mathlib.TextEquality.{eq_iff}
use codespace_operator.Prelude.Tests.{Bool-cases, text_cases}
use codespace_operator.Prelude.Lists.{filter, lookup, In, HasDistinctKeys}

module _ {V : Type 0} where
  abbrev pub entry_name : String × V → String
  entry_name (k, v) = k

  -- `Object.entries(m).filter(p).map(([k]) => k)`
  unfoldable pub names_where : (String × V → Bool) → List (String × V) → List String
  names_where p m = map entry_name (filter p m)

  abbrev pub Passes : (String × V → Bool) → String → List (String × V) → Type 0
  Passes p k m = (v : V) × (lookup k m ≡ some v) × (p (k, v) ≡ true)

  names_where-cons :
      (p : String × V → Bool) (k j : String) (v : V) (m : List (String × V))
      → In k (names_where p ((j, v) ∷ m)) ↔ (((k ≡ j) × (p (j, v) ≡ true)) ⊎ In k (names_where p m))
  unfolding names_where filter
  names_where-cons p k j v m = elim (Bool-cases (p (j, v))) [
    | inl e ↦ rw e (
      λ h. elim h [ inl s ↦ inl (s, refl) | inr i ↦ inr i ],
      λ h. elim h [ inl s ↦ inl s.0 | inr i ↦ inr i ],
    )
    | inr e ↦ rw e (λ h. inr h, λ h. elim h [ inl s ↦ absurd (cc s.1) | inr i ↦ i ])
  ]

  missing_of_distinct :
      (p : String × V → Bool) (k : String) (m : List (String × V))
      → lookup k m ≡ none
      → In k (names_where p m)
      → ⊥
  missing_of_distinct p k [] h i = unfold names_where filter in i
  missing_of_distinct p k ((j, v) ∷ m) h i = elim ((names_where-cons p k j v m).0 i) [
    | inl s ↦ unfold lookup in ground (arith, eq_iff j k, s.0)
    | inr r ↦ missing_of_distinct p k m (unfold lookup in ground (arith, eq_iff j k)) r
  ]

  lookup-skip :
      (k j : String) (v : V) (m : List (String × V)) (w : V)
      → lookup j m ≡ none
      → lookup k m ≡ some w
      → lookup k ((j, v) ∷ m) ≡ some w
  unfolding lookup
  lookup-skip k j v m w missing found = ground (arith, eq_iff j k)

  lookup-tail :
      (k j : String) (v : V) (m : List (String × V)) (w : V)
      → j ≢ k
      → lookup k ((j, v) ∷ m) ≡ some w
      → lookup k m ≡ some w
  unfolding lookup
  lookup-tail k j v m w n found = ground (arith, eq_iff j k)

  lookup-head :
      (k j : String) (v : V) (m : List (String × V)) (w : V)
      → j ≡ k
      → lookup k ((j, v) ∷ m) ≡ some w
      → v ≡ w
  unfolding lookup
  lookup-head k j v m w e found = ground (arith, eq_iff j k)

  -- In an object no name stands twice, so a name is found exactly if its own entry passes.
  pub In-names_where :
      (p : String × V → Bool) (k : String) (m : List (String × V))
      → HasDistinctKeys m
      → In k (names_where p m) ↔ Passes p k m
  In-names_where p k [] d =
      (λ i. absurd (unfold names_where filter in i), λ h. unfold lookup in cc h.1)
  In-names_where p k ((j, v) ∷ m) d = (
    λ i. elim ((names_where-cons p k j v m).0 i) [
      | inl s ↦ (v, (unfold lookup in ground (arith, eq_iff j k, s.0)), rw s.0 s.1)
      | inr r ↦
          let (w, found, passes) = (In-names_where p k m d.1).0 r in
          (w, lookup-skip k j v m w d.0 found, passes)
    ],
    λ h. elim (text_cases j k) [
      | inl e ↦
          (names_where-cons p k j v m).1 (inl (sym e, rw (lookup-head k j v m h.0 e h.1, e) h.2))
      | inr n ↦
          (names_where-cons p k j v m).1
            (inr ((In-names_where p k m d.1).1 (h.0, lookup-tail k j v m h.0 n h.1, h.2)))
    ],
  )
