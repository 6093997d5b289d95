-- ===== src/Views/Page/View.antt =====
-- ui/src/pages/SessionsPage.tsx: what the page puts together from its hooks, the table and the form.
use codespace_operator.Prelude.{
  String, ◌≡◌, ◌↔◌, ◌⊎◌, refl, ap, ◌∙◌, Bool, false, Option, none, some, List, [], ◌∷◌, map, In,
  inl, inr,
}
use codespace_operator.Prelude.Int.{ℤ}
use codespace_operator.Js.Text.{trim}
use codespace_operator.Types.Session.{UiSession}
use codespace_operator.Types.Introspection.{Introspection, delete, scale}
use codespace_operator.Sessions.{can_in}
use codespace_operator.Sessions.Search.{filtered_sessions, Finds, In-filtered_sessions}
use codespace_operator.Views.Rows.{Row, Body, row_view, table, loading, no_sessions, rows}
use codespace_operator.Views.Page.{creatable_namespaces, is_create_disabled}

-- What `useSessions` gives to the page, with the introspection of the context behind `can`.
pub record Hook : Type 0 where
  pub listed : List UiSession
  pub is_loading : Bool
  pub targets : List (String × ℤ)
  pub ix : Option Introspection

-- What is typed and opened on the page.
pub record Inputs : Type 0 where
  pub query : String
  pub is_create_open : Bool

pub record View : Type 0 where
  pub search : String
  pub is_create_disabled : Bool
  pub create_title : Option String
  pub body : Body
  -- the form: whether it is open, the namespace that is shown, and those that it offers
  pub is_open : Bool
  pub namespace : String
  pub writable_namespaces : List String

-- `title` of the button that opens the form
unfoldable pub create_title : List String → Option String
create_title [] = some "You lack 'create' permission in any namespace"
create_title (ns ∷ nss) = none

module _ (to_lower_case : String → String) where
  unfoldable pub body_of : Hook → String → Body
  body_of h query =
      table h.is_loading (can_in h.ix scale) (can_in h.ix delete) h.targets
        (filtered_sessions to_lower_case h.listed query)

  -- `ix` is that of the page's own request.
  unfoldable pub page_view : Option Introspection → Bool → Hook → String → Inputs → View
  page_view ix ix_loading h ns i = record {
    search = i.query;
    is_create_disabled = is_create_disabled (creatable_namespaces ix) ix_loading;
    create_title = create_title (creatable_namespaces ix);
    body = body_of h i.query;
    is_open = i.is_create_open;
    namespace = ns;
    writable_namespaces = creatable_namespaces ix;
  }

-- The rows of the table that is shown.
abbrev pub rows_of : Body → List Row
rows_of loading = []
rows_of no_sessions = []
rows_of (rows rs) = rs

In-map :
    {A B : Type 0} (f : A → B) (b : B) (xs : List A)
    → In b (map f xs) ↔ ((a : A) × In a xs × (b ≡ f a))
In-map f b [] = (λ h. absurd h, λ h. absurd h.1)
In-map f b (x ∷ xs) = (
  λ h. elim h [
    | inl e ↦ (x, inl refl, e)
    | inr m ↦ let (a, i, e) = (In-map f b xs).0 m in (a, inr i, e)
  ],
  λ h. elim h.1 [ inl e ↦ inl (h.2 ∙ ap f e) | inr i ↦ inr ((In-map f b xs).1 (h.0, i, h.2)) ],
)

rows_of-table :
    (can_scale can_delete : String → Bool) (targets : List (String × ℤ)) (ss : List UiSession)
    → rows_of (table false can_scale can_delete targets ss)
      ≡ map (row_view can_scale can_delete targets) ss
unfolding table
rows_of-table can_scale can_delete targets [] = refl
rows_of-table can_scale can_delete targets (s ∷ ss) = refl

-- Once the list is there, the table of the page has exactly the rows of the listed sessions in which the
-- query is found, all of them where nothing is left of the query after it is trimmed. Each row is
-- drawn with the rights of the user and with the targets that are under way.
pub In-page_view :
    (to_lower_case : String → String) (ix : Option Introspection) (ix_loading : Bool) (h : Hook)
    (ns : String) (i : Inputs) (r : Row)
    → h.is_loading ≡ false
    → let q = to_lower_case (trim i.query) in
      In r (rows_of (page_view to_lower_case ix ix_loading h ns i).body) ↔ (
        (s : UiSession) × (In s h.listed × ((q ≡ "") ⊎ Finds to_lower_case q s))
        × (r ≡ row_view (can_in h.ix scale) (can_in h.ix delete) h.targets s))
unfolding page_view body_of
In-page_view to_lower_case ix ix_loading h ns i r loaded =
    let draw = row_view (can_in h.ix scale) (can_in h.ix delete) h.targets in
    let found = filtered_sessions to_lower_case h.listed i.query in
    rw (loaded, rows_of-table (can_in h.ix scale) (can_in h.ix delete) h.targets found)
      (
        λ m.
            let (s, there, e) = (In-map draw r found).0 m in
            (s, (In-filtered_sessions to_lower_case h.listed i.query s).0 there, e),
        λ k.
            (In-map draw r found).1
              (k.0, (In-filtered_sessions to_lower_case h.listed i.query k.0).1 k.1, k.2),
      )
