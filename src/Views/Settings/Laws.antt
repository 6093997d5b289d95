-- ===== src/Views/Settings/Laws.antt =====
-- What the two access matrices show.
use codespace_operator.Prelude.{String, Bool, some, List, [], ◌∷◌, ◌≡◌, ◌↔◌, arith, In, lookup}
use codespace_operator.Types.Introspection.{Action, action_name}
use codespace_operator.Views.Settings.{ordered, ordered_in, action_order}

flag_of_ordered :
    (order : List Action) (perms : List (String × Bool)) (x : String) (b : Bool)
    → In (x, b) (ordered_in order perms)
    → lookup x perms ≡ some b
unfolding ordered_in
flag_of_ordered [] perms x b i = absurd i
flag_of_ordered (a ∷ order) perms x b i = ground (arith, flag_of_ordered order perms x b)

ordered_of_flag :
    (order : List Action) (perms : List (String × Bool)) (a : Action) (b : Bool)
    → In a order
    → lookup (action_name a) perms ≡ some b
    → In (action_name a, b) (ordered_in order perms)
unfolding ordered_in
ordered_of_flag [] perms a b i h = absurd i
ordered_of_flag (c ∷ order) perms a b i h = ground (arith, ordered_of_flag order perms a b)

is_ordered : (a : Action) → In a action_order
is_ordered a = ground arith

-- A known action is shown as allowed, or as refused, for a namespace exactly when that is the flag that
-- the namespace has for it.
In-ordered :
    (perms : List (String × Bool)) (a : Action) (b : Bool)
    → In (action_name a, b) (ordered (some perms)) ↔ (lookup (action_name a) perms ≡ some b)
unfolding ordered
In-ordered perms a b = (
  flag_of_ordered action_order perms (action_name a) b,
  ordered_of_flag action_order perms a b (is_ordered a),
)
