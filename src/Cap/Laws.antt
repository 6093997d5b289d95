-- ===== src/Cap/Laws.antt =====
-- What a `true` from `can` rests on.
use codespace_operator.Prelude.{
  String, ◌≡◌, ◌↔◌, inl, inr, refl, true, Option, none, some, arith, ◌==◌, eq_iff, if◌then◌else◌,
  Option-cases,
}
use codespace_operator.Types.Introspection.{Action, Introspection}
use codespace_operator.Cap.{flag, can}

-- The domain that a namespace of the UI stands for: "All" is the wildcard.
abbrev pub scope : String → String
scope ns = if ns == "All" then "*" else ns

-- An action is granted in a domain by the domain's own flag, or by the wildcard where the domain
-- has no flag for it.
pub data Grants (ix : Introspection) (action : Action) (key : String) : Type 0 where
  direct : flag ix.domains key action ≡ some true → Grants ix action key
  wildcard :
      flag ix.domains key action ≡ none
      → flag ix.domains "*" action ≡ some true
      → Grants ix action key

can_of_Grants :
    (ix : Introspection) (ns : String) (action : Action)
    → Grants ix action (scope ns)
    → can (some ix) ns action ≡ true
unfolding can
can_of_Grants ix ns action (direct h) = ground arith
can_of_Grants ix ns action (wildcard h k) = ground (arith, eq_iff (scope ns) "*")

Grants-of_can :
    (ix : Introspection) (ns : String) (action : Action)
    → can (some ix) ns action ≡ true
    → Grants ix action (scope ns)
unfolding can
Grants-of_can ix ns action h = elim (Option-cases (flag ix.domains (scope ns) action)) [
  | inl missing ↦ wildcard missing (ground arith)
  | inr (b, found) ↦ direct (ground arith)
]

-- `can` answers true exactly when there is an introspection answer and it grants the action: by the
-- namespace's own flag, or by the flag of "*" where the namespace has none. "All" is read as "*".
pub can_iff :
    (ix : Option Introspection) (ns : String) (action : Action)
    → (can ix ns action ≡ true) ↔ ((x : Introspection) × (ix ≡ some x) × Grants x action (scope ns))
can_iff none ns action = (λ h. absurd (unfold can in cc h), λ h. absurd (cc h.1))
can_iff (some ix) ns action = (
  λ h. (ix, refl, Grants-of_can ix ns action h),
  λ (x, same, g). let e : ix ≡ x = cc in rw e (can_of_Grants x ns action g),
)
