-- ===== src/Contract/Matches.antt =====
-- The request of each call as a request of an operation of the description.
use Prim.Native.String.{◌++◌ as concat}
use text.Mathlib.TextLemmas.{append_assoc, append-nil}
use codespace_operator.Prelude.{
  String, ◌≡◌, refl, ◌∙◌, ap, Bool, true, false, Bool-cases, List, [], ◌∷◌, ◌==◌, lookup, In, All,
  inl, inr,
}
use codespace_operator.Prelude.Int.{ℤ}
use codespace_operator.Js.Uri.{encode_uri_component, query_text}
use codespace_operator.Client.{api_request}
use codespace_operator.Client.Actions.{Request, Platform}
use codespace_operator.Client.Calls
use codespace_operator.Client.Laws.Cookies.{
  list, remove, scale, introspect, introspect_user, introspect_server,
}
use codespace_operator.Client.Laws.Requests.{request_of, all_params, user_params}
use codespace_operator.Contract.Defs.{
  Operation, IsRequestOf, expand, QueryPart, has_body, nothing, one, form, query_part, query_keys,
}
use codespace_operator.Contract.Sessions
use codespace_operator.Contract.Auth

abbrev of_session : String → String → List (String × String)
of_session ns name = ("namespace", ns) ∷ ("name", name) ∷ []

pub under_sessions :
    (s : String) → concat "/api/v1/server/sessions/" s ≡ concat Calls.sessions_path (concat "/" s)
under_sessions s = append_assoc Calls.sessions_path "/" s

pub ruleset path_laws = (append_assoc, append-nil, under_sessions)

pub all_query :
    (ns : String) → (ns == "All") ≡ true → Calls.namespace_query ns ≡ query_part (one "all" "true")
unfolding Calls.namespace_query encode_uri_component
all_query ns e = rw e refl

pub one_query :
    (ns : String)
    → (ns == "All") ≡ false
    → Calls.namespace_query ns ≡ query_part (one "namespace" ns)
unfolding Calls.namespace_query
one_query ns e =
    let value = encode_uri_component ns in
    rw e
      (append_assoc "?" "namespace=" value ∙ ap (concat "?") (append_assoc "namespace" "=" value))

module _ (p : Platform) where
  of_list_query :
      (ns : String) (q : QueryPart)
      → Calls.namespace_query ns ≡ query_part q
      → All (λ key. In key ("namespace" ∷ "all" ∷ [])) (query_keys q)
      → IsRequestOf p.base Sessions.list_sessions (request_of p (list ns))
  unfolding request_of api_request expand
  of_list_query ns q e declared = record {
    args = [];
    query = q;
    method = refl;
    url = ap (λ x. concat p.base (concat Calls.sessions_path x)) e;
    declared = declared;
    body = refl;
  }

  pub of_list : (ns : String) → IsRequestOf p.base Sessions.list_sessions (request_of p (list ns))
  of_list ns = elim (Bool-cases (ns == "All")) [
    | inl e ↦ of_list_query ns (one "all" "true") (all_query ns e) (inr (inl refl), tt)
    | inr e ↦ of_list_query ns (one "namespace" ns) (one_query ns e) (inl refl, tt)
  ]

  pub of_remove :
      (ns name : String)
      → IsRequestOf p.base Sessions.delete_session (request_of p (remove ns name))
  unfolding request_of Calls.session_path api_request expand lookup
  of_remove ns name = record {
    args = of_session ns name;
    query = nothing;
    method = refl;
    url = simp path_laws;
    declared = tt;
    body = refl;
  }

  pub of_scale :
      (ns name : String) (n : ℤ)
      → IsRequestOf p.base Sessions.scale_session (request_of p (scale ns name n))
  unfolding request_of Calls.session_path api_request expand lookup
  of_scale ns name n = record {
    args = of_session ns name;
    query = nothing;
    method = refl;
    url = simp path_laws;
    declared = tt;
    body = refl;
  }

  -- An operation whose path has no parameter, asked with no query.
  abbrev pub bare :
      {op : Operation} {req : Request}
      → req.method ≡ op.method
      → req.url ≡ concat p.base (concat (expand op.template []) "")
      → has_body req.body ≡ has_body op.body
      → IsRequestOf p.base op req
  bare m u b = record { args = []; query = nothing; method = m; url = u; declared = tt; body = b }

  user_keys :
      (namespaces actions : List String)
      → All
          (λ key. In key ("namespaces" ∷ "actions" ∷ []))
          (query_keys (
            form
              (Calls.list_param "namespaces" namespaces (Calls.list_param "actions" actions []))))
  user_keys [] [] = tt
  user_keys [] (a ∷ rest) = (inr (inl refl), tt)
  user_keys (n ∷ ns) [] = (inl refl, tt)
  user_keys (n ∷ ns) (a ∷ rest) = (inl refl, (inr (inl refl), tt))

  pub of_user :
      (o : Calls.Options)
      → o.discover ≡ false
      → IsRequestOf p.base Auth.introspect_user (request_of p (introspect_user o))
  unfolding request_of expand
  of_user o plain = record {
    args = [];
    query = form (user_params o);
    method = refl;
    url =
        ap (concat p.base)
          (append_assoc "/api/v1/introspect/user" "?" (query_text (user_params o)));
    declared = (rw plain (user_keys o.namespaces o.actions));
    body = refl;
  }

  pub of_server :
      (discover : Bool)
      → IsRequestOf p.base Auth.introspect_server (request_of p (introspect_server discover))
  unfolding request_of expand
  of_server true = record {
    args = [];
    query = form (("discover", "1") ∷ []);
    method = refl;
    declared = (inl refl, tt);
    body = refl;
    url = ap (concat p.base) (append_assoc "/api/v1/introspect/server" "?" _);
  }
  of_server false = record {
    args = [];
    query = form [];
    method = refl;
    declared = tt;
    body = refl;
    url = ap (concat p.base) (append_assoc "/api/v1/introspect/server" "?" _);
  }

  pub of_introspect :
      (o : Calls.Options)
      → all_params o ≡ []
      → IsRequestOf p.base Auth.introspect (request_of p (introspect o))
  unfolding request_of expand
  of_introspect o none_given = record {
    args = [];
    query = form (all_params o);
    method = refl;
    declared = (rw none_given tt);
    body = refl;
    url = ap (concat p.base) (append_assoc "/api/v1/introspect" "?" (query_text (all_params o)));
  }
