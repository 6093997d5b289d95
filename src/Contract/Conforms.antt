-- ===== src/Contract/Conforms.antt =====
-- The calls of the client against the description of the API.
use codespace_operator.Prelude.{
  String, ◌≡◌, refl, Bool, true, false, not, List, [], ◌∷◌, ◌++◌, arith, In, In-append, inl, inr,
}
use codespace_operator.Client.{api_request}
use codespace_operator.Client.Actions.{Request, Platform, World}
use codespace_operator.Client.Laws.Cookies.{
  Call, list, create, remove, scale, get_current_user, get_features, local_login, logout,
  session_info, introspect, introspect_user, introspect_server, run,
}
use codespace_operator.Client.Laws.Requests.{request_of, run_sends, all_params}
use codespace_operator.Contract.Defs.{Operation, IsRequestOf, expand}
use codespace_operator.Contract.Sessions
use codespace_operator.Contract.Auth
use codespace_operator.Contract.Admin
use codespace_operator.Contract.Matches.{
  of_list, of_remove, of_scale, bare, of_user, of_server, of_introspect,
}

abbrev pub described : List Operation
described = Admin.operations ++ (Sessions.operations ++ Auth.operations)

pub record IsDescribed (base : String) (req : Request) : Type 0 where
  pub operation : Operation
  pub listed : In operation described
  pub request : IsRequestOf base operation req

-- The calls that the description covers: not `sessionInfo`, whose path it does not have, and the two
-- introspection calls only without the parameters that it does not declare.
unfoldable pub is_described : Call → Bool
is_described session_info = false
is_described (introspect o) = elim (all_params o) [ [] ↦ true | _ ∷ _ ↦ false ]
is_described (introspect_user o) = not o.discover
is_described _ = true

of_sessions : (op : Operation) → In op Sessions.operations → In op described
of_sessions op i =
    (In-append op Admin.operations (Sessions.operations ++ Auth.operations)).1
      (inr ((In-append op Sessions.operations Auth.operations).1 (inl i)))

of_auth : (op : Operation) → In op Auth.operations → In op described
of_auth op i =
    (In-append op Admin.operations (Sessions.operations ++ Auth.operations)).1
      (inr ((In-append op Sessions.operations Auth.operations).1 (inr i)))

-- The call is one of the operations of the description that concern sessions.
session_call :
    {base : String} {req : Request} (op : Operation)
    → In op Sessions.operations
    → IsRequestOf base op req
    → IsDescribed base req
session_call op i r = record { operation = op; listed = of_sessions op i; request = r }

auth_call :
    {base : String} {req : Request} (op : Operation)
    → In op Auth.operations
    → IsRequestOf base op req
    → IsDescribed base req
auth_call op i r = record { operation = op; listed = of_auth op i; request = r }

IsDescribed-of_call :
    (p : Platform) (c : Call) → is_described c ≡ true → IsDescribed p.base (request_of p c)
unfolding is_described
IsDescribed-of_call p (list ns) h = session_call Sessions.list_sessions (inl refl) (of_list p ns)
IsDescribed-of_call p (create body) h =
    session_call Sessions.create_session (inr (inl refl))
      (unfold request_of api_request expand in bare p refl refl refl)
IsDescribed-of_call p (remove ns name) h =
    session_call Sessions.delete_session (inr (inr (inr (inr (inl refl))))) (of_remove p ns name)
IsDescribed-of_call p (scale ns name n) h =
    session_call Sessions.scale_session (inr (inr (inr (inr (inr (inl refl))))))
      (of_scale p ns name n)
IsDescribed-of_call p get_current_user h =
    auth_call Auth.current_user (inr (inr (inr (inl refl))))
      (unfold request_of api_request expand in bare p refl refl refl)
IsDescribed-of_call p get_features h =
    auth_call Auth.get_auth_features (inr (inr (inr (inr (inr (inl refl))))))
      (unfold request_of expand in bare p refl refl refl)
IsDescribed-of_call p (local_login username password) h =
    auth_call Auth.local_login (inr (inr (inr (inr (inr (inr (inl refl)))))))
      (unfold request_of api_request expand in bare p refl refl refl)
IsDescribed-of_call p logout h =
    auth_call Auth.sign_out (inr (inr (inr (inr (inr (inr (inr (inl refl))))))))
      (unfold request_of expand in bare p refl refl refl)
IsDescribed-of_call p session_info h = cc h
IsDescribed-of_call p (introspect o) h =
    auth_call Auth.introspect (inl refl) (of_introspect p o (ground (arith, h)))
IsDescribed-of_call p (introspect_user o) h =
    auth_call Auth.introspect_user (inr (inr (inl refl))) (of_user p o (ground (arith, h)))
IsDescribed-of_call p (introspect_server discover) h =
    auth_call Auth.introspect_server (inr (inl refl)) (of_server p discover)

-- Every call sends exactly one request, and it is one of the operations of the generated description: its
-- method, its path at arguments that are percent-encoded, no query that is not declared, and a body
-- exactly where one is. This leaves out `sessionInfo`, the combined introspection with parameters, and
-- the user's introspection with discovery.
pub run-IsDescribed :
    (p : Platform) (c : Call) (w : World)
    → is_described c ≡ true
    → ((run p c w).1.sent ≡ w.sent ++ request_of p c ∷ []) × IsDescribed p.base (request_of p c)
run-IsDescribed p c w h = (run_sends p c w, IsDescribed-of_call p c h)
