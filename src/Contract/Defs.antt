-- ===== src/Contract/Defs.antt =====
-- The shape of the description, and the requests that an operation stands for.
use Prim.Native.String.{◌++◌}
use codespace_operator.Prelude.{
  ℕ, String, ◌≡◌, Bool, true, false, Option, none, some, List, [], ◌∷◌, map, In, All, lookup,
}
use codespace_operator.Js.Uri.{encode_uri_component, query_text}
use codespace_operator.Client.Actions.{Request}

-- `components["schemas"]`, by the last part of the name.
pub data Schema : Type 0 where
  auth_features error_response login_response password_login_request server_introspection_response
        session session_create_request session_list_response session_scale_request user_info
        user_introspection_response user_permissions :
      Schema

pub data Segment : Type 0 where
  literal : String → Segment
  -- `{name}` within a template
  parameter : String → Segment

pub data Query : Type 0 where
  -- the name and the type
  required optional : String → String → Query

abbrev pub query_name : Query → String
query_name (required name type) = name
query_name (optional name type) = name

pub data Content : Type 0 where
  schema : Schema → Content
  -- a text, an object with text values, an object
  text texts values : Content

pub data Answer : Type 0 where
  -- the status, and the content by its type
  answer : ℕ → Option (String × Content) → Answer

pub record Operation : Type 0 where
  pub method : String
  pub template : List Segment
  pub query : List Query
  pub body : Option Schema
  pub answers : List Answer

abbrev argument : Option String → String
argument none = ""
argument (some value) = encode_uri_component value

-- The path of an operation at its arguments, which are percent-encoded.
unfoldable pub expand : List Segment → List (String × String) → String
expand [] args = ""
expand (literal s ∷ rest) args = s ++ expand rest args
expand (parameter name ∷ rest) args = argument (lookup name args) ++ expand rest args

-- A query, as the client writes it: none, one component, or a URLSearchParams.
pub data QueryPart : Type 0 where
  nothing : QueryPart
  one : String → String → QueryPart
  form : List (String × String) → QueryPart

abbrev pub query_part : QueryPart → String
query_part nothing = ""
query_part (one key value) = "?" ++ key ++ "=" ++ encode_uri_component value
query_part (form ps) = "?" ++ query_text ps

abbrev key_of : String × String → String
key_of (k, v) = k

abbrev pub query_keys : QueryPart → List String
query_keys nothing = []
query_keys (one key value) = key ∷ []
query_keys (form ps) = map key_of ps

abbrev pub has_body : {A : Type 0} → Option A → Bool
has_body none = false
has_body (some a) = true

-- A request that is one of an operation: its method, its path at some arguments, no query that the
-- operation does not declare, and a body exactly if it declares one.
pub record IsRequestOf (base : String) (op : Operation) (req : Request) : Type 0 where
  pub args : List (String × String)
  pub query : QueryPart
  pub method : req.method ≡ op.method
  pub url : req.url ≡ base ++ expand op.template args ++ query_part query
  pub declared : All (λ key. In key (map query_name op.query)) (query_keys query)
  pub body : has_body req.body ≡ has_body op.body
