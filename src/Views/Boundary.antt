-- ===== src/Views/Boundary.antt =====
-- ui/src/ErrorBoundary.tsx and ui/src/main.tsx: the parts around the application, and what is left of
-- them once one of them has thrown while it was rendered.
use codespace_operator.Prelude.{
  String, Bool, true, false, Option, none, some, List, [], ◌∷◌, ◌==◌, if◌then◌else◌,
}
use codespace_operator.Js.Json.{null, get, truthy, present, to_text}
use codespace_operator.Js.Value.{Thrown, exception, thrown}

pub record Boundary : Type 0 where
  pub error : Thrown

unfoldable pub initial : Boundary
initial = record { error = thrown (some null) }

unfoldable pub get_derived_state_from_error : Thrown → Boundary
get_derived_state_from_error error = record { error = error }

-- `if (this.state.error)`
unfoldable pub is_set : Thrown → Bool
is_set (exception name message) = true
is_set (thrown none) = false
is_set (thrown (some v)) = truthy v

-- `String(this.state.error?.message || this.state.error)`; an Error without a message is shown by its
-- name.
unfoldable pub error_text : Thrown → String
error_text (exception name message) = if message == "" then name else message
error_text (thrown none) = "undefined"
error_text (thrown (some v)) = elim (present (get v "message")) [
  | some m ↦ to_text m
  | none ↦ to_text v
]

-- The text that takes the place of the children, or none where they are rendered.
unfoldable pub render : Boundary → Option String
render s = if is_set s.error then some (error_text s.error) else none

-- What `root.render` mounts, from the outside to the inside.
pub data Part : Type 0 where
  error_boundary browser_router introspection_provider app : Part

unfoldable pub tree : List Part
tree = error_boundary ∷ browser_router ∷ introspection_provider ∷ app ∷ []

-- The parts that are on the page.
unfoldable pub mounted : Boundary → List Part
mounted s = if is_set s.error then error_boundary ∷ [] else tree
