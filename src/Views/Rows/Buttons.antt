-- ===== src/Views/Rows/Buttons.antt =====
-- The buttons of a row against the guards of the actions behind them.
use codespace_operator.Prelude.{
  String, false, Option, none, some, List, ◌≡◌, ◌↔◌, arith, eq_iff, refl,
}
use codespace_operator.Prelude.Int.{ℤ}
use codespace_operator.Js.Result.{ok}
use codespace_operator.Types.Session.{UiSession}
use codespace_operator.Types.Introspection.{Introspection, Action, delete, scale}
use codespace_operator.Cap.{can}
use codespace_operator.Sessions.{can_in, remove_guarded, scale_guarded}
use codespace_operator.Views.Rows.{row_view}

can_in-can : (ix : Option Introspection) (a : Action) (ns : String) → can_in ix a ns ≡ can ix ns a
unfolding can_in can
can_in-can none a ns = refl
can_in-can (some ix) a ns = ground (arith, eq_iff ns "All")

-- With the checks that the page passes, each of the two scale buttons and the delete button of a row is
-- enabled exactly if the action behind it calls the API for the session of the row.
pub buttons_match_guards :
    (ix : Option Introspection) (targets : List (String × ℤ)) (s : UiSession) (n : ℤ)
    → let r = row_view (can_in ix scale) (can_in ix delete) targets s in
      let ns = s.metadata.namespace in
      let name = s.metadata.name in
      ((r.scale_up.is_disabled ≡ false)
        ↔ ((scale_guarded ix ns name n targets).0 ≡ ok (ns, name, n)))
      × ((r.scale_down.is_disabled ≡ false)
          ↔ ((scale_guarded ix ns name n targets).0 ≡ ok (ns, name, n)))
      × ((r.delete.is_disabled ≡ false) ↔ (remove_guarded ix ns name ≡ ok (ns, name)))
unfolding row_view scale_guarded remove_guarded
buttons_match_guards ix targets s n =
    ground
      (arith, can_in-can ix scale s.metadata.namespace, can_in-can ix delete s.metadata.namespace)
