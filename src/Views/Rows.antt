-- ===== src/Views/Rows.antt =====
-- ui/src/components/SessionsTable.tsx: the cells, marks and buttons of the table of sessions.
pub mod Buttons
use Prim.Native.String.{◌++◌}
use codespace_operator.Prelude.{
  String, Bool, true, false, not, ◌||◌, ◌&&◌, Option, none, some, List, [], ◌∷◌, map, ◌==◌,
  if◌then◌else◌, lookup, ◌≡◌, ◌↔◌, ◌⊎◌, arith,
}
use codespace_operator.Prelude.Int.{ℤ, pos, eq_ℤ, eq-ℤ_lem}
use codespace_operator.Types.Session.{Labels, UiSession}
use codespace_operator.Sessions.{or_text, target_key, truthy_text}
use codespace_operator.Sessions.Search.{host_of}

pub data Color : Type 0 where
  success info warning danger : Color

-- `intent[phase || "none"] || "info"`
unfoldable pub phase_color : Option String → Color
phase_color phase =
    let key = or_text phase "none" in
    if key == "Ready"
    then success
    else if key == "Pending"
    then warning
    else if key == "Error"
    then danger
    else info

-- `L[key] || ""` of labels that may be missing
abbrev pub label_of : Option Labels → String → String
label_of none key = ""
label_of (some l) key = or_text (lookup key l) ""

pub record ManagerInfo : Type 0 where
  pub manager_name : String
  pub manager_namespace : String
  pub manager_type : String
  pub instance_id : String
  pub adopted_from : String
  pub adopted_at : String
  pub adopted_by : String

unfoldable pub get_manager_info : UiSession → ManagerInfo
get_manager_info s = record {
  manager_name = label_of s.metadata.labels "codespace.dev/manager-name";
  manager_namespace = label_of s.metadata.labels "codespace.dev/manager-namespace";
  manager_type = label_of s.metadata.labels "codespace.dev/manager-type";
  instance_id = label_of s.metadata.labels "codespace.dev/instance-id";
  adopted_from = label_of s.metadata.annotations "codespace.dev/adopted-from";
  adopted_at = label_of s.metadata.annotations "codespace.dev/adopted-at";
  adopted_by = label_of s.metadata.annotations "codespace.dev/adopted-by";
}

-- A line of the tooltip, which is left out where its text is empty.
abbrev tooltip_line : String → String → List (String × String) → List (String × String)
tooltip_line term text rest = if text == "" then rest else (term, text) ∷ rest

abbrev tooltip_lines : ManagerInfo → List (String × String)
tooltip_lines m = tooltip_line "Type:" m.manager_type (
    tooltip_line "InstanceID:" m.instance_id (
      tooltip_line "Manager Namespace:" m.manager_namespace (
        tooltip_line "Adopted from:" m.adopted_from
          (tooltip_line "Adopted by:" m.adopted_by (tooltip_line "Adopted at:" m.adopted_at [])))))

pub data ManagedBy : Type 0 where
  -- the dash
  unmanaged : ManagedBy
  -- the label, the lines of its tooltip, and whether "adopted" stands beside it
  managed : String → List (String × String) → Bool → ManagedBy

unfoldable pub managed_by_cell : UiSession → ManagedBy
managed_by_cell s =
    let m = get_manager_info s in
    let text =
      if m.manager_namespace == ""
      then m.manager_name
      else m.manager_namespace ++ "/" ++ m.manager_name in
    let cell = managed text (tooltip_lines m) (not (m.adopted_from == "")) in
    if m.manager_name == "" then unmanaged else cell

-- `typeof s.spec.replicas === "number" ? s.spec.replicas : 1`
abbrev pub current_replicas : UiSession → ℤ
current_replicas s = elim s.spec.replicas [ none ↦ pos 1 | some n ↦ n ]

pub data Replicas : Type 0 where
  steady : ℤ → Replicas
  -- from the current count to the target
  applying : ℤ → ℤ → Replicas

abbrev pub replicas_toward : ℤ → Option ℤ → Replicas
replicas_toward current none = steady current
replicas_toward current (some target) =
    if not (eq_ℤ target current) then applying current target else steady current

unfoldable pub replicas_cell : List (String × ℤ) → UiSession → Replicas
replicas_cell targets s =
    replicas_toward (current_replicas s)
      (lookup (target_key s.metadata.namespace s.metadata.name) targets)

pub record Button : Type 0 where
  pub tooltip : String
  pub is_disabled : Bool

-- A button whose action may be refused in the namespace of its row.
abbrev guarded_button : String → String → String → Bool → Button
guarded_button label action ns allowed = record {
  tooltip =
      if allowed then label else "No '" ++ action ++ "' permission in namespace '" ++ ns ++ "'";
  is_disabled = not allowed;
}

pub record Row : Type 0 where
  pub key : String
  pub name : String
  pub namespace : String
  pub ide : String
  pub image : String
  pub host : String
  pub managed_by : ManagedBy
  pub phase : String
  pub color : Color
  pub scale_down : Button
  pub replicas : Replicas
  pub scale_up : Button
  pub delete : Button

unfoldable pub row_view : (String → Bool) → (String → Bool) → List (String × ℤ) → UiSession → Row
row_view can_scale can_delete targets s =
    let ns = s.metadata.namespace in
    let phase : Option String = elim s.status [ none ↦ none | some t ↦ t.phase ] in
    record {
      key = target_key ns s.metadata.name;
      name = s.metadata.name;
      namespace = ns;
      ide = s.spec.profile.ide;
      image = s.spec.profile.image;
      host = host_of s.spec.networking;
      managed_by = managed_by_cell s;
      phase = or_text phase "-";
      color = phase_color phase;
      scale_down = guarded_button "Scale down" "scale" ns (can_scale ns);
      replicas = replicas_cell targets s;
      scale_up = guarded_button "Scale up" "scale" ns (can_scale ns);
      delete = guarded_button "Delete" "delete" ns (can_delete ns);
    }

pub data Body : Type 0 where
  loading no_sessions : Body
  rows : List Row → Body

unfoldable pub table :
    Bool → (String → Bool) → (String → Bool) → List (String × ℤ) → List UiSession → Body
table is_loading can_scale can_delete targets [] = if is_loading then loading else no_sessions
table is_loading can_scale can_delete targets (s ∷ ss) =
    if is_loading then loading else rows (map (row_view can_scale can_delete targets) (s ∷ ss))
