-- ===== src/Views/Form.antt =====
-- ui/src/components/CreateSessionModal.tsx: the form that asks for a new session.
pub mod Laws
use codespace_operator.Prelude.{
  String, Bool, true, false, not, ◌||◌, ◌&&◌, Option, none, some, List, [], ◌∷◌, ◌==◌,
  if◌then◌else◌, includes,
}
use codespace_operator.Prelude.Int.{ℤ, pos, clamp}
use codespace_operator.Js.Text.{trim, split_spaces}
use codespace_operator.Types.Create.{SessionCreateRequest}

pub data Ide : Type 0 where
  jupyterlab vscode : Ide

unfoldable pub ide_name : Ide → String
ide_name jupyterlab = "jupyterlab"
ide_name vscode = "vscode"

abbrev pub default_image : Ide → String
default_image jupyterlab = "jupyter/minimal-notebook:latest"
default_image vscode = "codercom/code-server:latest"

abbrev pub default_cmd : Ide → String
default_cmd jupyterlab = "start-notebook.sh --NotebookApp.token="
default_cmd vscode = "--bind-addr 0.0.0.0:8080 --auth none"

pub record Form : Type 0 where
  pub namespace : String
  pub name : String
  pub replicas : ℤ
  pub ide : Ide
  pub image : String
  pub cmd : String
  pub host : String

abbrev pub initial_form : Form
initial_form = record {
  namespace = "";
  name = "";
  replicas = pos 1;
  ide = jupyterlab;
  image = default_image jupyterlab;
  cmd = default_cmd jupyterlab;
  host = "";
}

-- `xs[0] || ""`
abbrev first_or_empty : List String → String
first_or_empty [] = ""
first_or_empty (x ∷ xs) = x

-- The effect that chooses the namespace when the form opens or its inputs change.
unfoldable pub default_namespace : String → List String → String
default_namespace listed writable =
    let offered = not (listed == "") && not (listed == "All") && includes writable listed in
    let preferred = if offered then listed else "" in
    if preferred == "" then first_or_empty writable else preferred

-- `handleIDEChange`
unfoldable pub change_ide : Ide → Form → Form
change_ide ide f = record f { ide = ide; image = default_image ide; cmd = default_cmd ide }

-- `Math.max(0, parseInt(v || "0"))`, of the number that is typed
unfoldable pub change_replicas : ℤ → Form → Form
change_replicas typed f = record f { replicas = pos (clamp typed) }

-- The other fields take what is typed; the effect above sets the namespace.
pub data Change : Type 0 where
  opened : String → List String → Change
  namespace_chosen name_typed image_typed cmd_typed host_typed : String → Change
  replicas_typed : ℤ → Change
  ide_chosen : Ide → Change

unfoldable pub change : Change → Form → Form
change (opened listed writable) f = record f { namespace = default_namespace listed writable }
change (namespace_chosen v) f = record f { namespace = v }
change (name_typed v) f = record f { name = v }
change (image_typed v) f = record f { image = v }
change (cmd_typed v) f = record f { cmd = v }
change (host_typed v) f = record f { host = v }
change (replicas_typed n) f = change_replicas n f
change (ide_chosen ide) f = change_ide ide f

-- The body that `submit` builds.
unfoldable pub request_body : Form → SessionCreateRequest
request_body f = record {
  auth = none;
  home = none;
  name = some f.name;
  namespace = some f.namespace;
  networking =
      if f.host == ""
      then none
      else some (record { annotations = none; host = some f.host; tls_secret_name = none });
  profile = some (record {
    ide = some (ide_name f.ide);
    image = some f.image;
    cmd = if trim f.cmd == "" then none else some (split_spaces f.cmd);
  });
  replicas = some f.replicas;
  scratch = none;
}

-- The request that `submit` hands on, unless it returns at once.
unfoldable pub submit : Form → Option SessionCreateRequest
submit f = if f.name == "" || f.namespace == "" then none else some (request_body f)

-- What `submit` sets once `onCreate` has returned.
unfoldable pub reset : Form → Form
reset f = record f {
  name = "";
  replicas = pos 1;
  image = default_image f.ide;
  cmd = default_cmd f.ide;
  host = "";
}

-- `isDisabled` of the button
unfoldable pub is_submit_disabled : Form → List String → Bool
is_submit_disabled f [] = true
is_submit_disabled f (ns ∷ nss) = f.name == "" || f.namespace == ""

-- `isDisabled` of the choice of the namespace
unfoldable pub is_choice_disabled : List String → Bool
is_choice_disabled [] = true
is_choice_disabled (ns ∷ nss) = false
