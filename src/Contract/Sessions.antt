-- ===== src/Contract/Sessions.antt =====
-- ui/src/types/api.gen.ts: the operations on sessions.
use codespace_operator.Prelude.{List, [], ◌∷◌, none, some}
use codespace_operator.Contract.Defs.{
  Operation, literal, parameter, optional, answer, schema, text, texts, error_response, session,
  session_create_request, session_list_response, session_scale_request,
}

abbrev pub list_sessions : Operation
list_sessions = record {
  method = "GET";
  template = literal "/api/v1/server/sessions" ∷ [];
  query = optional "namespace" "string" ∷ optional "all" "boolean" ∷ [];
  body = none;
  answers =
      answer 200 (some ("application/json", schema session_list_response))
      ∷ answer 401 (some ("application/json", schema error_response))
      ∷ answer 403 (some ("application/json", schema error_response))
      ∷ [];
}

abbrev pub create_session : Operation
create_session = record {
  method = "POST";
  template = literal "/api/v1/server/sessions" ∷ [];
  query = [];
  body = some session_create_request;
  answers =
      answer 201 (some ("application/json", schema session))
      ∷ answer 400 (some ("application/json", schema error_response))
      ∷ answer 401 (some ("application/json", schema error_response))
      ∷ answer 403 (some ("application/json", schema error_response))
      ∷ [];
}

abbrev pub get_session : Operation
get_session = record {
  method = "GET";
  template =
      literal "/api/v1/server/sessions/"
      ∷ parameter "namespace"
      ∷ literal "/"
      ∷ parameter "name"
      ∷ [];
  query = [];
  body = none;
  answers =
      answer 200 (some ("application/json", schema session))
      ∷ answer 401 (some ("application/json", schema error_response))
      ∷ answer 403 (some ("application/json", schema error_response))
      ∷ answer 404 (some ("application/json", schema error_response))
      ∷ [];
}

abbrev pub update_session : Operation
update_session = record {
  method = "PUT";
  template =
      literal "/api/v1/server/sessions/"
      ∷ parameter "namespace"
      ∷ literal "/"
      ∷ parameter "name"
      ∷ [];
  query = [];
  body = some session_create_request;
  answers =
      answer 200 (some ("application/json", schema session))
      ∷ answer 400 (some ("application/json", schema error_response))
      ∷ answer 401 (some ("application/json", schema error_response))
      ∷ answer 403 (some ("application/json", schema error_response))
      ∷ answer 404 (some ("application/json", schema error_response))
      ∷ [];
}

abbrev pub delete_session : Operation
delete_session = record {
  method = "DELETE";
  template =
      literal "/api/v1/server/sessions/"
      ∷ parameter "namespace"
      ∷ literal "/"
      ∷ parameter "name"
      ∷ [];
  query = [];
  body = none;
  answers =
      answer 200 (some ("application/json", texts))
      ∷ answer 401 (some ("application/json", schema error_response))
      ∷ answer 403 (some ("application/json", schema error_response))
      ∷ answer 404 (some ("application/json", schema error_response))
      ∷ [];
}

abbrev pub scale_session : Operation
scale_session = record {
  method = "POST";
  template =
      literal "/api/v1/server/sessions/"
      ∷ parameter "namespace"
      ∷ literal "/"
      ∷ parameter "name"
      ∷ literal "/scale"
      ∷ [];
  query = [];
  body = some session_scale_request;
  answers =
      answer 200 (some ("application/json", schema session))
      ∷ answer 400 (some ("application/json", schema error_response))
      ∷ answer 401 (some ("application/json", schema error_response))
      ∷ answer 403 (some ("application/json", schema error_response))
      ∷ answer 404 (some ("application/json", schema error_response))
      ∷ [];
}

abbrev pub stream_sessions : Operation
stream_sessions = record {
  method = "GET";
  template = literal "/api/v1/stream/sessions" ∷ [];
  query = optional "namespace" "string" ∷ optional "all" "boolean" ∷ [];
  body = none;
  answers =
      answer 200 (some ("text/event-stream", text))
      ∷ answer 401 (some ("text/event-stream", schema error_response))
      ∷ answer 403 (some ("text/event-stream", schema error_response))
      ∷ [];
}

abbrev pub operations : List Operation
operations =
    list_sessions ∷ create_session ∷ get_session ∷ update_session ∷ delete_session ∷ scale_session
    ∷ stream_sessions ∷ []
