-- ===== src/App/Namespace.antt =====
-- The effect that validates the namespace.
use codespace_operator.Prelude.{
  String, ◌≡◌, ◌≢◌, ◌⊎◌, inl, inr, refl, sym, subst, ◌∙◌, Bool, true, false, Option, none, some,
  List, [], ◌∷◌, arith, ◌==◌, eq_iff, if◌then◌else◌, includes, includes_iff, find, find-some, In,
  Bool-cases,
}
use codespace_operator.Types.Introspection.{UserIntrospectionResponse}
use codespace_operator.Sessions.{or_text}
use codespace_operator.App.{allow_all, accessible, creatable, is_valid, fallback, settle, validate}

settle_lem :
    (all : Bool) (nss created : List String) (namespace : String)
    → settle all nss created namespace
      ≡ (if is_valid all nss namespace then namespace else fallback all nss created)
unfolding settle
settle_lem all nss created namespace = ground (arith, eq_iff (fallback all nss created) namespace)

settle_twice :
    (all : Bool) (nss created : List String) (ns : String)
    → settle all nss created (settle all nss created ns) ≡ settle all nss created ns
settle_twice all nss created ns = ground (
  arith,
  settle_lem all nss created ns,
  settle_lem all nss created ns,
  settle_lem all nss created (settle all nss created ns),
)

-- A namespace of the list, or all of them if that is allowed.
abbrev pub IsOpen : Bool → List String → String → Type 0
IsOpen all nss namespace =
    ((namespace ≢ "All") × In namespace nss) ⊎ ((namespace ≡ "All") × (all ≡ true))

settle_open :
    (all : Bool) (nss created : List String) (ns : String)
    → IsOpen all nss ns
    → settle all nss created ns ≡ ns
settle_open all nss created ns (inl (named, member)) =
    ground (arith, settle_lem all nss created ns, eq_iff ns "All", (includes_iff nss ns).1 member)
settle_open all nss created ns (inr (wide, allowed)) =
    ground (arith, settle_lem all nss created ns, eq_iff ns "All", wide, allowed)

-- Once the user's data is there, a namespace that the user may access, or "All" if the user may watch
-- the whole cluster, is left alone. Of any namespace one run of the effect is enough: a second run,
-- which the change of the namespace triggers, changes nothing, so the effect does not run for ever.
pub validate_settles :
    (u : UserIntrospectionResponse) (good namespace : String)
    → IsOpen (allow_all u) (accessible u) good
    → (validate (some u) good ≡ good)
      × (validate (some u) (validate (some u) namespace) ≡ validate (some u) namespace)
unfolding validate
validate_settles u good namespace is_open = (
  settle_open (allow_all u) (accessible u) (creatable u) good is_open,
  settle_twice (allow_all u) (accessible u) (creatable u) namespace,
)

fallback-In : (nss created : List String) → nss ≢ [] → In (fallback false nss created) nss
unfolding fallback
fallback-In [] created n = absurd (n refl)
fallback-In (x ∷ xs) created n = chosen (find (includes (x ∷ xs)) created) refl
  where
    chosen : (o : Option String) → find (includes (x ∷ xs)) created ≡ o → In (or_text o x) (x ∷ xs)
    chosen none e = inl refl
    chosen (some ns) e = elim (Bool-cases (ns == "")) [
      | inl blank ↦
          let same : or_text (some ns) x ≡ x = rw blank in
          subst (λ s. In s (x ∷ xs)) (sym same) (inl refl)
      | inr filled ↦
          let (_, member) = find-some (includes (x ∷ xs)) created ns e in
          let same : or_text (some ns) x ≡ ns = rw filled in
          subst (λ s. In s (x ∷ xs)) (sym same) ((includes_iff (x ∷ xs) ns).0 member)
    ]

module _ (nss created : List String) (plain : ¬ In "All" nss) where
  IsOpen-of_In : (all : Bool) (s : String) → In s nss → IsOpen all nss s
  IsOpen-of_In all s i = inl ((λ e. plain (rw (← e) i)), i)

  IsOpen-of_valid : (all : Bool) (s : String) → is_valid all nss s ≡ true → IsOpen all nss s
  IsOpen-of_valid all s v = elim (Bool-cases (s == "All")) [
    | inl wide ↦ inr ((eq_iff s "All").0 wide, rw wide at v)
    | inr named ↦ IsOpen-of_In all s ((includes_iff nss s).0 (rw named at v))
  ]

  IsOpen-fallback : (all : Bool) → nss ≢ [] → IsOpen all nss (fallback all nss created)
  IsOpen-fallback true n = unfold fallback in inr (refl, refl)
  IsOpen-fallback false n = IsOpen-of_In false _ (fallback-In nss created n)

  IsOpen-settle : (all : Bool) (s : String) → nss ≢ [] → IsOpen all nss (settle all nss created s)
  IsOpen-settle all s n = elim (Bool-cases (is_valid all nss s)) [
    | inl good ↦
        let same : settle all nss created s ≡ s = settle_lem all nss created s ∙ rw good in
        rw same (IsOpen-of_valid all s good)
    | inr bad ↦
        let same : settle all nss created s ≡ fallback all nss created =
          settle_lem all nss created s ∙ rw bad in
        rw same (IsOpen-fallback all n)
  ]

-- Once the user's data is there, the namespace after the effect is one that the user may access, or
-- "All" if the user may watch the whole cluster, provided that the user has some namespace and none
-- is spelled "All".
pub validate-IsOpen :
    (u : UserIntrospectionResponse) (namespace : String)
    → accessible u ≢ []
    → ¬ In "All" (accessible u)
    → IsOpen (allow_all u) (accessible u) (validate (some u) namespace)
unfolding validate
validate-IsOpen u namespace n plain =
    IsOpen-settle (accessible u) (creatable u) plain (allow_all u) namespace n
