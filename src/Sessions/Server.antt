-- ===== src/Sessions/Server.antt =====
-- ui/src/hooks/useSessions.ts against what is on the server: the list effect and the stream start side
-- by side, so events can come before the answer. What is on the server is a map from namespaces and
-- names to sessions, which the events of the stream describe.
use codespace_operator.Prelude.{
  ℕ, String, ◌≡◌, ◌≢◌, refl, sym, ◌&&◌, Option, none, some, List, [], ◌∷◌, ◌++◌, map, arith, ◌==◌,
  eq_iff, if◌then◌else◌, Option-cases, inl, inr, ◌↔◌, ◌⊎◌, All,
}
use codespace_operator.Types.Session.{UiSession, SessionEvent}
use codespace_operator.Sessions.Rows.{row}
use codespace_operator.Sessions.Loading.{State, resolved, streamed, step, run}
use codespace_operator.Sessions.Replay.{
  replay_events, latest, shown_by, replay_latest, run-streamed, answer_then_stream,
}

-- Which session is under a namespace and a name.
abbrev pub Cluster : Type 0
Cluster = String → String → Option UiSession

-- What the change that an event tells of does to the cluster.
unfoldable pub happen : SessionEvent → Cluster → Cluster
happen ev c ns name =
    if ev.object.metadata.namespace == ns && ev.object.metadata.name == name
    then (if ev.type == "DELETED" then none else some ev.object)
    else c ns name

unfoldable pub happen_all : List SessionEvent → Cluster → Cluster
happen_all [] c = c
happen_all (ev ∷ es) c = happen_all es (happen ev c)

-- The rows are what the cluster holds in one namespace.
abbrev pub IsListing : String → List UiSession → Cluster → Type 0
IsListing ns rows c = (name : String) → row rows name ≡ c ns name

-- The stream of a namespace tells of the sessions of that namespace.
abbrev pub IsOf : String → List SessionEvent → Type 0
IsOf ns es = All (λ (ev : SessionEvent). ev.object.metadata.namespace ≡ ns) es

-- The answer to the list stands between the events that came before it and those after it.
abbrev pub loaded : ℕ → List UiSession → List SessionEvent → List SessionEvent → State → State
loaded id found early late s =
    run (map streamed late) (step (resolved id found) (run (map streamed early) s))

happen_all-latest :
    (ns name : String) (es : List SessionEvent) (c : Cluster)
    → IsOf ns es
    → happen_all es c ns name ≡ shown_by (latest name es) (c ns name)
unfolding happen_all latest
happen_all-latest ns name [] c h = refl
happen_all-latest ns name (ev ∷ es) c h = elim (Option-cases (latest name es)) [
  | inl e ↦
      rw (happen_all-latest ns name es (happen ev c) h.1, e)
        (unfold happen in
          ground (
            arith,
            h.0,
            eq_iff ev.object.metadata.namespace ns,
            eq_iff ev.object.metadata.name name,
          ))
  | inr (later, e) ↦ rw (happen_all-latest ns name es (happen ev c) h.1, e) refl
]

row-loaded :
    (s : State) (id : ℕ) (found : List UiSession) (early late : List SessionEvent) (name : String)
    → s.current ≡ some id
    → row (loaded id found early late s).rows name ≡ shown_by (latest name late) (row found name)
row-loaded s id found early late name awaited =
    rw
      (
        run-streamed early s,
        (answer_then_stream (record s { rows = replay_events early s.rows }) id found late
            awaited).0,
      )
      (replay_latest late found name)

happen_all-append :
    (es late : List SessionEvent) (c : Cluster)
    → happen_all (es ++ late) c ≡ happen_all late (happen_all es c)
unfolding happen_all
happen_all-append [] late c = refl
happen_all-append (ev ∷ es) late c = happen_all-append es late (happen ev c)

agree_iff :
    (last : Option SessionEvent) (was changed : Option UiSession)
    → (shown_by last was ≡ shown_by last changed) ↔ ((last ≢ none) ⊎ (changed ≡ was))
agree_iff none was changed =
    (λ e. inr (sym e), λ h. elim h [ inl n ↦ absurd (n refl) | inr e ↦ sym e ])
agree_iff (some ev) was changed = (λ e. inl (λ h. cc h), λ h. refl)

-- The awaited answer is what the cluster held of one namespace when it was made, and every event of the
-- stream is of that namespace. Once all of them are there, the table shows under a name what the
-- cluster holds by then exactly if an event about the name came after the answer, or the events
-- that came before the answer left the cluster's session of that name as the answer has it.
pub loaded_agrees_iff :
    (s : State) (id : ℕ) (ns : String) (found : List UiSession) (c : Cluster)
    (early late : List SessionEvent)
    → s.current ≡ some id
    → IsListing ns found c
    → IsOf ns early
    → IsOf ns late
    → (name : String)
    → (row (loaded id found early late s).rows name ≡ happen_all (early ++ late) c ns name)
      ↔ ((latest name late ≢ none) ⊎ (happen_all early c ns name ≡ c ns name))
loaded_agrees_iff s id ns found c early late awaited listed of_early of_late name =
    rw
      (
        row-loaded s id found early late name awaited,
        listed name,
        happen_all-append early late c,
        happen_all-latest ns name late (happen_all early c) of_late,
      )
      (agree_iff (latest name late) (c ns name) (happen_all early c ns name))

-- When the answer is there before the first event, the table and the cluster agree under every name
-- after any events of the namespace.
loaded_in_time :
    (s : State) (id : ℕ) (ns : String) (found : List UiSession) (c : Cluster)
    (late : List SessionEvent)
    → s.current ≡ some id
    → IsListing ns found c
    → IsOf ns late
    → IsListing ns (loaded id found [] late s).rows (happen_all late c)
loaded_in_time s id ns found c late awaited listed of_late name =
    (loaded_agrees_iff s id ns found c [] late awaited listed tt of_late name).1
      (inr (unfold happen_all in refl))
