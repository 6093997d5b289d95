-- ===== src/Views/Form/Laws.antt =====
-- What the form asks for, and whether the create action agrees.
use codespace_operator.Prelude.{
  String, Bool, true, false, not, Option, some, List, [], ◌∷◌, ◌==◌, if◌then◌else◌, ◌≡◌, ◌≢◌, ◌↔◌,
  ◌⊎◌, inl, inr, arith, eq_iff, In, includes, includes_iff, refl, sym, subst, ◌&&◌,
}
use codespace_operator.Js.Result.{ok}
use codespace_operator.Types.Introspection.{Introspection, create}
use codespace_operator.Types.Create.{SessionCreateRequest}
use codespace_operator.Cap.{can}
use codespace_operator.Sessions.{
  create_guarded, resolve_namespace, require_fields, settle, truthy_text,
}
use codespace_operator.Views.Form.{
  Form, Ide, default_namespace, submit, request_body, is_submit_disabled, ide_name, jupyterlab,
  vscode,
}

chosen_cases :
    (offered : Bool) (listed other : String)
    → let chosen = if offered then listed else "" in
      ((if chosen == "" then other else chosen) ≡ other)
      ⊎ (((if chosen == "" then other else chosen) ≡ listed) × (offered ≡ true))
chosen_cases true listed other = ground arith
chosen_cases false listed other = inl refl

default_cases :
    (listed ns : String) (nss : List String)
    → (default_namespace listed (ns ∷ nss) ≡ ns)
      ⊎ ((default_namespace listed (ns ∷ nss) ≡ listed) × (includes (ns ∷ nss) listed ≡ true))
unfolding default_namespace
default_cases listed ns nss =
    let offered = not (listed == "") && not (listed == "All") && includes (ns ∷ nss) listed in
    elim (chosen_cases offered listed ns) [
      | inl first ↦ inl first
      | inr (same, h) ↦ inr (same, ground arith)
    ]

default-In :
    (listed ns : String) (nss : List String) → In (default_namespace listed (ns ∷ nss)) (ns ∷ nss)
default-In listed ns nss = elim (default_cases listed ns nss) [
  | inl first ↦ inl first
  | inr (same, is_in) ↦
      subst (λ x. In x (ns ∷ nss)) (sym same) ((includes_iff (ns ∷ nss) listed).0 is_in)
]

-- The namespace that the form opens with is one in which the user can create, or there is none and the
-- button is disabled. It is the listed one, unless that is empty, "All" or not one of them.
default_namespace_lem :
    (listed : String) (writable : List String) (f : Form)
    → (In (default_namespace listed writable) writable
        ⊎ ((writable ≡ []) × (is_submit_disabled f writable ≡ true)))
      × ((default_namespace listed writable ≡ listed)
          ⊎ ((listed ≡ "") ⊎ ((listed ≡ "All") ⊎ (includes writable listed ≡ false))))
default_namespace_lem listed [] f =
    unfold default_namespace is_submit_disabled includes in (inr (refl, refl), inr (inr (inr refl)))
default_namespace_lem listed (ns ∷ nss) f = (
  inl (default-In listed ns nss),
  unfold default_namespace in ground (arith, eq_iff listed "", eq_iff listed "All"),
)

truthy-ide_name : (i : Ide) → truthy_text (some (ide_name i)) ≡ some (ide_name i)
unfolding ide_name
truthy-ide_name jupyterlab = refl
truthy-ide_name vscode = refl

-- The guards of the create action, on a body with a name and a namespace.
create-request_body :
    (ix : Option Introspection) (effective : String) (f : Form)
    → (f.name == "") ≡ false
    → (f.namespace == "") ≡ false
    → (create_guarded ix effective (request_body f) ≡ ok (request_body f))
      ↔ ((can ix f.namespace create ≡ true) × ((f.image == "") ≡ false))
unfolding create_guarded resolve_namespace require_fields settle request_body
create-request_body ix effective f named placed = ground (arith, truthy-ide_name f.ide)

submitted :
    (f : Form) (body : SessionCreateRequest)
    → submit f ≡ some body
    → (((f.name == "") ≡ false) × ((f.namespace == "") ≡ false)) × (request_body f ≡ body)
unfolding submit
submitted f body h = ground arith

-- What the form hands on is sent exactly if `can` grants "create" in the chosen namespace and an image
-- is typed, whatever namespace is listed; it is then sent as it is.
pub submit-create_guarded :
    (ix : Option Introspection) (effective : String) (f : Form) (body : SessionCreateRequest)
    → submit f ≡ some body
    → (create_guarded ix effective body ≡ ok body)
      ↔ ((can ix f.namespace create ≡ true) × (f.image ≢ ""))
submit-create_guarded ix effective f body h =
    let (placed, same) = submitted f body h in
    rw (← same)
      (ground (arith, create-request_body ix effective f placed.0 placed.1, eq_iff f.image ""))
