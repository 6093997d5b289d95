-- ===== src/App/Chrome.antt =====
-- ui/src/App.tsx: what stands around the routes. AppChrome has the header, the sidebar and the toasts; the
-- sign-in page has the toasts alone.
use codespace_operator.Prelude.{
  ℕ, suc, ◌≤◌, String, ◌≡◌, ◌≢◌, ◌↔◌, refl, sym, ap, ◌∙◌, Bool, Option, none, List, [], ◌∷◌, map,
  arith, In, filter, length, ◌==◌, eq_iff, inl, inr, Bool-cases,
}
use codespace_operator.Js.Json.{Json, truthy}
use codespace_operator.Auth.{Auth, is_authenticated}
use codespace_operator.Alerts.{Alert, Variant, Change, closed, replay, apply, close, length-replay}
use codespace_operator.Views.Menu.{shown_user}
use codespace_operator.App.{show_namespace_select}
use codespace_operator.App.Routes.{sidebar}

-- A toast: its variant, its title, and the key that its button closes.
abbrev pub Toast : Type 0
Toast = Variant × String × String

unfoldable pub toast_of : Alert → Toast
toast_of a = (a.variant, a.title, a.key)

-- `<AlertGroup isToast>`
unfoldable pub toasts : List Alert → List Toast
toasts alerts = map toast_of alerts

pub record Chrome : Type 0 where
  -- what the header is given
  pub namespace : String
  pub user : Option String
  pub show_namespace_select : Bool
  pub sidebar : Option (String × List (String × List (String × String)))
  pub alerts : List Toast

-- `AppChrome`, with its own call of `useAuth`.
unfoldable pub app_chrome : String → Bool → List Alert → Auth → String → Chrome
app_chrome namespace is_sidebar_open alerts auth pathname = record {
  namespace = namespace;
  user = shown_user auth.user;
  show_namespace_select = show_namespace_select pathname;
  sidebar = sidebar (is_authenticated auth) is_sidebar_open;
  alerts = toasts alerts;
}

length-toasts : (alerts : List Alert) → length (toasts alerts) ≡ length alerts
unfolding toasts
length-toasts [] = refl
length-toasts (a ∷ rest) = ap suc (length-toasts rest)

In-toasts-close :
    (key : String) (alerts : List Alert) (t : Toast)
    → In t (toasts (close key alerts)) ↔ (In t (toasts alerts) × (t.2 ≢ key))
unfolding toasts close filter toast_of
In-toasts-close key [] t = (λ i. absurd i, λ i. i.0)
In-toasts-close key (a ∷ rest) t = elim (Bool-cases (a.key == key)) [
  | inl same ↦ rw same (
    λ i. let (m, n) = (In-toasts-close key rest t).0 i in (inr m, n),
    λ h. elim h.0 [
      | inl e ↦ absurd (h.1 (key_of e ∙ (eq_iff a.key key).0 same))
      | inr m ↦ (In-toasts-close key rest t).1 (m, h.1)
    ],
  )
  | inr other ↦ rw other (
    λ i. elim i [
      | inl e ↦ (inl e, λ k. cc (other, (eq_iff a.key key).1 (sym (key_of e) ∙ k)))
      | inr j ↦ let (m, n) = (In-toasts-close key rest t).0 j in (inr m, n)
    ],
    λ h. elim h.0 [ inl e ↦ inl e | inr m ↦ inr ((In-toasts-close key rest t).1 (m, h.1)) ],
  )
]
  where
    key_of : t ≡ (a.variant, a.title, a.key) → t.2 ≡ a.key
    key_of e = ap (λ (x : Toast). x.2) e

sidebar-user :
    (user : Json) (is_open : Bool)
    → (sidebar (truthy user) is_open ≡ none) ↔ (shown_user user ≡ none)
unfolding sidebar shown_user
sidebar-user user is_open = ground arith

-- Whatever was pushed and closed, the page shows at most as many toasts as the limit; the button of a toast
-- takes away exactly the toasts of its key; and the sidebar is there exactly if the header has a
-- user to show.
pub app_chrome_lem :
    (max : ℕ) (cs : List Change) (alerts : List Alert) (ns key path : String) (is_open : Bool)
    (a : Auth) (t : Toast)
    → length alerts ≤ max
    → let shown = app_chrome ns is_open (replay max cs alerts) a path in
      let after = app_chrome ns is_open (apply max (closed key) (replay max cs alerts)) a path in
      (length shown.alerts ≤ max)
      × (In t after.alerts ↔ (In t shown.alerts × (t.2 ≢ key)))
      × ((shown.sidebar ≡ none) ↔ (shown.user ≡ none))
unfolding app_chrome is_authenticated apply
app_chrome_lem max cs alerts ns key path is_open a t few =
    let now = replay max cs alerts in
    (
      rw (length-toasts now) (length-replay max cs alerts few),
      In-toasts-close key now t,
      sidebar-user a.user is_open,
    )
