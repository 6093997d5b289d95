-- ===== src/Tests/Samples.antt =====
-- The data of the tests: two users, the server's answers, sessions and a network.
use codespace_operator.Prelude.{ℕ, String, Bool, true, false, Option, none, some, List, [], ◌∷◌}
use codespace_operator.Prelude.Int.{pos}
use codespace_operator.Js.Json.{Json}
use codespace_operator.Types.Session.{UiSession, SessionEvent}
use codespace_operator.Types.Create.{SessionCreateRequest}
use codespace_operator.Types.Introspection.{
  DomainPermissions, Domains, UserInfo, Introspection, UserIntrospectionResponse,
  ServerIntrospectionResponse,
}
use codespace_operator.Client.Actions.{Response, response, World, Platform}

abbrev pub nobody : UserInfo
nobody = record {
  subject = none;
  username = none;
  email = none;
  provider = none;
  roles = none;
  implicit_roles = none;
  exp = none;
  iat = none;
}

abbrev pub permissions : List (String × Bool) → DomainPermissions
permissions s = record { session = some s }

-- "dev" may be listed and not deleted in, "ops" has only "get", and the wildcard allows to delete.
abbrev pub some_domains : Domains
some_domains =
    ("ops", permissions (("get", true) ∷ []))
    ∷ ("*", permissions (("delete", true) ∷ []))
    ∷ ("dev", permissions (("list", true) ∷ ("delete", false) ∷ ("create", true) ∷ []))
    ∷ []

abbrev pub sample_ix : Introspection
sample_ix = record {
  user = nobody;
  cluster = none;
  domains = some some_domains;
  namespaces = some (record {
    all = none;
    with_sessions = none;
    user_allowed = some ("dev" ∷ "ops" ∷ []);
    user_creatable = some ("dev" ∷ []);
    user_deletable = none;
  });
  capabilities = record {
    namespace_scope = none;
    cluster_scope = none;
    admin_access = none;
    multi_tenant = none;
  };
  subjects = none;
}

abbrev pub user_with : Bool → Domains → UserIntrospectionResponse
user_with cluster ds = record {
  user = none;
  domains = some ds;
  namespaces = some (record {
    user_allowed = some ("ops" ∷ "dev" ∷ []);
    user_creatable = some ("dev" ∷ []);
    user_deletable = none;
  });
  capabilities =
      some (record { namespace_scope = none; cluster_scope = some cluster; admin_access = none });
}

abbrev pub limited_user : UserIntrospectionResponse
limited_user = user_with false some_domains

abbrev pub wide_user : UserIntrospectionResponse
wide_user = user_with true some_domains

abbrev pub sample_server : ServerIntrospectionResponse
sample_server = record {
  capabilities = none;
  cluster = none;
  instance_id = none;
  manager = none;
  namespaces =
      some
        (record { all = some ("kube" ∷ "dev" ∷ []); with_sessions = some ("kube" ∷ "ops" ∷ []) });
  version = none;
}

abbrev pub session : String → String → String → UiSession
session ns name image = record {
  metadata = record { name = name; namespace = ns; labels = none; annotations = none };
  spec = record {
    profile = record { ide = "vscode"; image = image; cmd = none };
    networking = none;
    replicas = some (pos 1);
  };
  status = none;
}

abbrev pub event : String → UiSession → SessionEvent
event type object = record { type = type; object = object }

abbrev pub sample_request : SessionCreateRequest
sample_request = record {
  auth = none;
  home = none;
  name = some "web";
  namespace = none;
  networking = none;
  profile = some (record { cmd = none; ide = some "vscode"; image = some "code:1" });
  replicas = none;
  scratch = none;
}

abbrev pub reply_with : ℕ → Option Json → Response
reply_with status body = record {
  status = status;
  status_text = "text";
  content_length = none;
  body = body;
}

-- A network that always answers alike.
abbrev pub platform_with : Response → Platform
platform_with r = record {
  base = "https://x";
  answer = λ sent req. response r;
  syntax_error = "bad json";
  null_error = "null";
}

abbrev pub sample_world : World
sample_world = record {
  storage = ("co_ns", "dev") ∷ ("co_user", "ann") ∷ [];
  signals = [];
  sent = [];
}
