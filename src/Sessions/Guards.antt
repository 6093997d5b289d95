-- ===== src/Sessions/Guards.antt =====
-- What the guarded actions have checked when they call the API.
use codespace_operator.Prelude.{
  String, ◌≡◌, ◌≢◌, ◌↔◌, ◌⊎◌, inl, inr, refl, ◌∙◌, true, Option, none, some, List, arith, ◌==◌,
  eq_iff, if◌then◌else◌, lookup, lookup-insert, Option-cases,
}
use codespace_operator.Prelude.Int.{ℤ}
use codespace_operator.Js.Result.{ok, bind-eq-ok}
use codespace_operator.Types.Introspection.{Introspection, create, scale}
use codespace_operator.Types.Create.{SessionCreateRequest}
use codespace_operator.Cap.{can}
use codespace_operator.Sessions.{
  candidate, first_creatable, truthy_text, with_namespace, settle, resolve_namespace,
  require_fields, profile_parts, create_guarded, scale_guarded, target_key,
}

-- The scale action calls the API exactly when `can` grants "scale" in the namespace; then the target of
-- the session is the replica count, and without the grant no target changes.
scale_guarded_lem :
    (ix : Option Introspection) (ns name : String) (n : ℤ) (targets : List (String × ℤ))
    (key : String)
    → (((scale_guarded ix ns name n targets).0 ≡ ok (ns, name, n)) ↔ (can ix ns scale ≡ true))
      × (lookup key (scale_guarded ix ns name n targets).1 ≡ (
          if can ix ns scale
          then (if target_key ns name == key then some n else lookup key targets)
          else lookup key targets))
unfolding scale_guarded
scale_guarded_lem ix ns name n targets key =
    ground (arith, lookup-insert (target_key ns name) key n targets)

-- What a request of the create action went through.
pub record IsCleared (ix : Option Introspection) (effective : String)
    (req sent : SessionCreateRequest) : Type 0 where
  pub ns : String
  pub sent_is : sent ≡ with_namespace req ns
  pub named : ns ≢ ""
  pub allowed :
      (can ix ns create ≡ true)
      ⊎ ((truthy_text (candidate req effective) ≡ none) × (first_creatable ix ≡ some ns))
  pub has_name : (n : String) × (req.name ≡ some n) × (n ≢ "")
  pub has_profile : (parts : String × String) × (profile_parts req ≡ some parts)

truthy-eq-some : (o : Option String) (s : String) → truthy_text o ≡ some s → (o ≡ some s) × (s ≢ "")
truthy-eq-some none s h = cc
truthy-eq-some (some t) s h = ground (arith, eq_iff t "")

settle_lem :
    (ix : Option Introspection) (req r : SessionCreateRequest) (given creatable : Option String)
    → settle ix req given creatable ≡ ok r
    → (ns : String) × (r ≡ with_namespace req ns)
      × (((given ≡ some ns) × (can ix ns create ≡ true)) ⊎ ((given ≡ none) × (creatable ≡ some ns)))
unfolding settle
settle_lem ix req r (some ns) creatable h = (ns, ground arith, inl (refl, ground arith))
settle_lem ix req r none (some ns) h = (ns, ground arith, inr (refl, refl))
settle_lem ix req r none none h = cc

require_fields_lem :
    (r sent : SessionCreateRequest)
    → require_fields r ≡ ok sent
    → (sent ≡ r)
      × ((n : String) × (r.name ≡ some n) × (n ≢ ""))
      × ((parts : String × String) × (profile_parts r ≡ some parts))
unfolding require_fields
require_fields_lem r sent h = elim (Option-cases (truthy_text r.name)) [
  | inl unnamed ↦ absurd (ground (arith, unnamed))
  | inr (n, named) ↦ elim (Option-cases (profile_parts r)) [
    | inl bare ↦ absurd (ground (arith, named, bare))
    | inr (parts, full) ↦
        let (given, filled) = truthy-eq-some r.name n named in
        (ground (arith, named, full), (n, given, filled), (parts, full))
  ]
]

-- A request that the create action sends is the given one with its namespace settled. That namespace
-- is not empty; `can` grants "create" in it, or the request and the page named none and it is the
-- first creatable one. The name, the IDE and the image are there and not empty.
pub create_guarded_lem :
    (ix : Option Introspection) (effective : String) (req sent : SessionCreateRequest)
    → create_guarded ix effective req ≡ ok sent
    → IsCleared ix effective req sent
unfolding create_guarded
create_guarded_lem ix effective req sent h =
    let (r, resolved, checked) =
      bind-eq-ok (resolve_namespace ix effective req) require_fields _ h in
    let (same, name, profile) = require_fields_lem r sent checked in
    cleared r (unfold resolve_namespace in settle_lem ix req r _ _ resolved) same name profile
  where
    cleared :
        (r : SessionCreateRequest)
        → ((ns : String) × (r ≡ with_namespace req ns)
            × (((truthy_text (candidate req effective) ≡ some ns) × (can ix ns create ≡ true))
                ⊎ ((truthy_text (candidate req effective) ≡ none)
                    × (truthy_text (first_creatable ix) ≡ some ns))))
        → sent ≡ r
        → ((n : String) × (r.name ≡ some n) × (n ≢ ""))
        → ((parts : String × String) × (profile_parts r ≡ some parts))
        → IsCleared ix effective req sent
    cleared r (ns, is, inl (given, allowed)) same name profile = record {
      ns = ns;
      sent_is = same ∙ is;
      named = (truthy-eq-some (candidate req effective) ns given).1;
      allowed = inl allowed;
      has_name = rw is at name;
      has_profile = rw is at profile;
    }
    cleared r (ns, is, inr (missing, first)) same name profile = record {
      ns = ns;
      sent_is = same ∙ is;
      named = (truthy-eq-some (first_creatable ix) ns first).1;
      allowed = inr (missing, (truthy-eq-some (first_creatable ix) ns first).0);
      has_name = rw is at name;
      has_profile = rw is at profile;
    }
