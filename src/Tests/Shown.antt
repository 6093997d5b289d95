-- ===== src/Tests/Shown.antt =====
-- What the page of the sessions and the frame of the application show.
use codespace_operator.Prelude.{
  String, ◌≡◌, ◌≢◌, ◌↔◌, ◌⊎◌, ◌≤◌, refl, arith, true, false, none, some, List, [], ◌∷◌, In, length,
}
use codespace_operator.Js.Text.{trim}
use codespace_operator.Types.Session.{UiSession}
use codespace_operator.Types.Introspection.{delete, scale}
use codespace_operator.Alerts.{Alert, danger, success, pushed, closed, Change, replay, apply}
use codespace_operator.Auth.{initial}
use codespace_operator.App.Chrome.{Toast, app_chrome, app_chrome_lem}
use codespace_operator.Sessions.{can_in}
use codespace_operator.Sessions.Search.{Finds}
use codespace_operator.Views.Rows.{Row, row_view}
use codespace_operator.Views.Page.View.{Hook, Inputs, rows_of, page_view, In-page_view}
use codespace_operator.Tests.Samples.{session, sample_ix}

abbrev web : UiSession
web = session "dev" "web" "code:1"

abbrev db : UiSession
db = session "dev" "db" "pg:1"

abbrev hook : Hook
hook = record { listed = web ∷ db ∷ []; is_loading = false; targets = []; ix = some sample_ix }

abbrev typed : Inputs
typed = record { query = " pg "; is_create_open = false }

abbrev db_row : Row
db_row = row_view (can_in (some sample_ix) scale) (can_in (some sample_ix) delete) [] db

-- An engine that knows no capital letters serves as `toLowerCase`.
abbrev small : String → String
small s = s

In-page_view_example :
    In db_row (rows_of (page_view small (some sample_ix) false hook "dev" typed).body) ↔ (
      (s : UiSession) × (In s (web ∷ db ∷ [])
        × ((small (trim " pg ") ≡ "") ⊎ Finds small (small (trim " pg ")) s))
      × (db_row ≡ row_view (can_in (some sample_ix) scale) (can_in (some sample_ix) delete) [] s))
In-page_view_example = In-page_view small (some sample_ix) false hook "dev" typed db_row refl

abbrev failure : Alert
failure = record { key = "k1"; title = "Delete failed"; variant = danger }

abbrev done : Alert
done = record { key = "k2"; title = "Deleted"; variant = success }

abbrev changes : List Change
changes = pushed failure ∷ pushed done ∷ []

abbrev failure_toast : Toast
failure_toast = (danger, "Delete failed", "k1")

app_chrome_example :
    let shown = app_chrome "dev" true (replay 5 changes []) (initial (some "ann")) "/sessions" in
    let after =
      app_chrome "dev" true
        (apply 5 (closed "k2") (replay 5 changes []))
        (initial (some "ann"))
        "/sessions" in
    (length shown.alerts ≤ 5)
    × (In failure_toast after.alerts ↔ (In failure_toast shown.alerts × (failure_toast.2 ≢ "k2")))
    × ((shown.sidebar ≡ none) ↔ (shown.user ≡ none))
app_chrome_example =
    app_chrome_lem 5 changes [] "dev" "k2" "/sessions" true (initial (some "ann")) failure_toast
      (omega arith)
