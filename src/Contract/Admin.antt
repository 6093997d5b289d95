-- ===== src/Contract/Admin.antt =====
-- ui/src/types/api.gen.ts: the operations for administrators, and the two checks of the service.
use codespace_operator.Prelude.{List, [], ◌∷◌, none, some}
use codespace_operator.Contract.Defs.{
  Operation, literal, required, optional, answer, schema, text, texts, values, error_response,
  session,
}

abbrev pub reload_rbac : Operation
reload_rbac = record {
  method = "POST";
  template = literal "/api/v1/admin/rbac/reload" ∷ [];
  query = [];
  body = none;
  answers =
      answer 200 (some ("application/json", texts))
      ∷ answer 401 (some ("application/json", schema error_response))
      ∷ answer 403 (some ("application/json", schema error_response))
      ∷ [];
}

abbrev pub adopt_session : Operation
adopt_session = record {
  method = "POST";
  template = literal "/api/v1/admin/sessions/adopt" ∷ [];
  query =
      optional "namespace" "string"
      ∷ required "name" "string"
      ∷ optional "dryRun" "0 | 1"
      ∷ optional "force" "0 | 1"
      ∷ [];
  body = none;
  answers =
      answer 200 (some ("application/json", schema session))
      ∷ answer 404 (some ("application/json", schema error_response))
      ∷ answer 409 (some ("application/json", text))
      ∷ [];
}

abbrev pub system_info : Operation
system_info = record {
  method = "GET";
  template = literal "/api/v1/admin/system/info" ∷ [];
  query = [];
  body = none;
  answers = answer 200 (some ("application/json", values)) ∷ [];
}

abbrev pub list_users : Operation
list_users = record {
  method = "GET";
  template = literal "/api/v1/admin/users" ∷ [];
  query = [];
  body = none;
  answers =
      answer 200 (some ("application/json", values))
      ∷ answer 401 (some ("application/json", schema error_response))
      ∷ answer 403 (some ("application/json", schema error_response))
      ∷ [];
}

abbrev pub health : Operation
health = record {
  method = "GET";
  template = literal "/healthz" ∷ [];
  query = [];
  body = none;
  answers = answer 200 (some ("text/plain", text)) ∷ [];
}

abbrev pub readiness : Operation
readiness = record {
  method = "GET";
  template = literal "/readyz" ∷ [];
  query = optional "namespace" "string" ∷ [];
  body = none;
  answers = answer 200 (some ("text/plain", text)) ∷ answer 503 (some ("text/plain", text)) ∷ [];
}

abbrev pub operations : List Operation
operations = reload_rbac ∷ adopt_session ∷ system_info ∷ list_users ∷ health ∷ readiness ∷ []
