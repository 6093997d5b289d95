-- ===== src/Contract/Auth.antt =====
-- ui/src/types/api.gen.ts: signing in, and what the server says of the user and of itself.
use codespace_operator.Prelude.{List, [], ◌∷◌, none, some}
use codespace_operator.Contract.Defs.{
  Operation, literal, optional, answer, schema, texts, values, auth_features, error_response,
  login_response, password_login_request, server_introspection_response, user_info,
  user_introspection_response, user_permissions,
}

abbrev pub introspect : Operation
introspect = record {
  method = "GET";
  template = literal "/api/v1/introspect" ∷ [];
  query = [];
  body = none;
  answers =
      answer 200 (some ("application/json", values))
      ∷ answer 401 (some ("application/json", schema error_response))
      ∷ [];
}

abbrev pub introspect_server : Operation
introspect_server = record {
  method = "GET";
  template = literal "/api/v1/introspect/server" ∷ [];
  query = optional "discover" "string" ∷ [];
  body = none;
  answers =
      answer 200 (some ("application/json", schema server_introspection_response))
      ∷ answer 401 (some ("application/json", schema error_response))
      ∷ answer 403 (some ("application/json", schema error_response))
      ∷ [];
}

abbrev pub introspect_user : Operation
introspect_user = record {
  method = "GET";
  template = literal "/api/v1/introspect/user" ∷ [];
  query = optional "namespaces" "string" ∷ optional "actions" "string" ∷ [];
  body = none;
  answers =
      answer 200 (some ("application/json", schema user_introspection_response))
      ∷ answer 401 (some ("application/json", schema error_response))
      ∷ [];
}

abbrev pub current_user : Operation
current_user = record {
  method = "GET";
  template = literal "/api/v1/me" ∷ [];
  query = [];
  body = none;
  answers =
      answer 200 (some ("application/json", schema user_info))
      ∷ answer 401 (some ("application/json", schema error_response))
      ∷ [];
}

abbrev pub get_user_permissions : Operation
get_user_permissions = record {
  method = "GET";
  template = literal "/api/v1/user/permissions" ∷ [];
  query = optional "namespaces" "string" ∷ optional "actions" "string" ∷ [];
  body = none;
  answers =
      answer 200 (some ("application/json", schema user_permissions))
      ∷ answer 401 (some ("application/json", schema error_response))
      ∷ [];
}

abbrev pub get_auth_features : Operation
get_auth_features = record {
  method = "GET";
  template = literal "/auth/features" ∷ [];
  query = [];
  body = none;
  answers = answer 200 (some ("application/json", schema auth_features)) ∷ [];
}

abbrev pub local_login : Operation
local_login = record {
  method = "POST";
  template = literal "/auth/login" ∷ [];
  query = [];
  body = some password_login_request;
  answers =
      answer 200 (some ("application/json", schema login_response))
      ∷ answer 401 (some ("application/json", schema error_response))
      ∷ [];
}

abbrev pub sign_out : Operation
sign_out = record {
  method = "GET";
  template = literal "/auth/logout" ∷ [];
  query = [];
  body = none;
  answers = answer 200 (some ("*/*", texts)) ∷ answer 302 none ∷ [];
}

abbrev pub refresh_session : Operation
refresh_session = record {
  method = "POST";
  template = literal "/auth/refresh" ∷ [];
  query = [];
  body = none;
  answers = answer 204 none ∷ answer 401 (some ("application/json", schema error_response)) ∷ [];
}

abbrev pub sso_login : Operation
sso_login = record {
  method = "GET";
  template = literal "/auth/sso/login" ∷ [];
  query = optional "next" "string" ∷ [];
  body = none;
  answers = answer 302 none ∷ [];
}

abbrev pub operations : List Operation
operations =
    introspect ∷ introspect_server ∷ introspect_user ∷ current_user ∷ get_user_permissions
    ∷ get_auth_features ∷ local_login ∷ sign_out ∷ refresh_session ∷ sso_login ∷ []
