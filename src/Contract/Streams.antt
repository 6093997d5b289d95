-- ===== src/Contract/Streams.antt =====
-- The connections of the stream against the description of the API.
use Prim.Native.String.{◌++◌ as concat}
use codespace_operator.Prelude.{
  String, ◌≡◌, refl, true, [], ◌∷◌, map, ◌==◌, Bool-cases, inl, inr, All, In,
}
use codespace_operator.Client.Actions.{Platform}
use codespace_operator.Client.Calls
use codespace_operator.Contract.Defs.{QueryPart, one, query_part, query_keys, query_name, expand}
use codespace_operator.Contract.Sessions
use codespace_operator.Contract.Matches.{all_query, one_query, path_laws}

-- A connection to the operation of the description that streams sessions, with the cookie and with no
-- query that is not declared.
pub record IsStream (base : String) (st : Calls.Stream) : Type 0 where
  pub query : QueryPart
  pub url :
      st.url ≡ concat base (concat (expand Sessions.stream_sessions.template []) (query_part query))
  pub declared :
      All (λ key. In key (map query_name Sessions.stream_sessions.query)) (query_keys query)
  pub cookie : st.with_credentials ≡ true

watch_at :
    (p : Platform) (ns : String) (q : QueryPart)
    → Calls.namespace_query ns ≡ query_part q
    → All (λ key. In key ("namespace" ∷ "all" ∷ [])) (query_keys q)
    → IsStream p.base (Calls.watch p ns)
unfolding Calls.watch expand
watch_at p ns q e declared = record {
  query = q;
  url = simp (e, path_laws);
  declared = declared;
  cookie = refl;
}

pub watch-IsStream : (p : Platform) (ns : String) → IsStream p.base (Calls.watch p ns)
watch-IsStream p ns = elim (Bool-cases (ns == "All")) [
  | inl e ↦ watch_at p ns (one "all" "true") (all_query ns e) (inr (inl refl), tt)
  | inr e ↦ watch_at p ns (one "namespace" ns) (one_query ns e) (inl refl, tt)
]
