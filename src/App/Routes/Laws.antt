-- ===== src/App/Routes/Laws.antt =====
-- Where a visitor ends, whatever the path: redirects stop, and a sign-in leads back.
use codespace_operator.Prelude.{
  String, ◌≡◌, ◌≢◌, ◌∙◌, ◌==◌, sym, ap, In, refl, Bool, true, false, none, some, arith, eq_iff,
  if◌then◌else◌, Bool-cases, inl, inr,
}
use codespace_operator.App.{require_auth, after_login}
use codespace_operator.Sessions.{or_text}
use codespace_operator.App.Routes.{
  Page, sessions, user_info, cluster_settings, Element, login_route, protected, protected_index,
  fallback, patterns, Location, Screen, spinner, login, page, sessions_location, route, render,
  visit, logged_in, IsMatcher,
}

-- Where RequireAuth sends a visitor of a path who is not signed in.
abbrev pub sign_in_at : String → Location
sign_in_at path = record { pathname = "/login"; from = some path }

-- What the gate leaves of a screen.
abbrev passed : Bool → Bool → Screen → Location → Screen × Location
passed is_authenticated is_loading shown l =
    if is_loading
    then (spinner, l)
    else if is_authenticated
    then (shown, l)
    else (login, sign_in_at l.pathname)

-- Where a visitor of a location ends.
abbrev pub destination : Bool → Bool → Element → Location → Screen × Location
destination is_authenticated is_loading login_route l = (login, l)
destination is_authenticated is_loading (protected p) l =
    passed is_authenticated is_loading (page p) l
destination is_authenticated is_loading protected_index l =
    if is_loading
    then (spinner, l)
    else if is_authenticated
    then (page sessions, sessions_location)
    else (login, sign_in_at l.pathname)
destination is_authenticated is_loading fallback l =
    passed is_authenticated is_loading (page sessions) sessions_location

-- What stands at a path, by the pattern that matches it.
pub data Serves (is_at : String → String → Bool) : String → Element → Type 0 where
  at_login : (path : String) → is_at "/login" path ≡ true → Serves is_at path login_route
  at_sessions :
      (path : String) → is_at "/sessions" path ≡ true → Serves is_at path (protected sessions)
  at_user_info :
      (path : String) → is_at "/user-info" path ≡ true → Serves is_at path (protected user_info)
  at_info :
      (path : String) → is_at "/info" path ≡ true → Serves is_at path (protected cluster_settings)
  at_index : (path : String) → is_at "/" path ≡ true → Serves is_at path protected_index
  elsewhere :
      (path : String)
      → ((pattern : String) → In pattern patterns → is_at pattern path ≡ false)
      → Serves is_at path fallback

module _ (is_at : String → String → Bool) (matcher : IsMatcher is_at) where
  matched :
      (pattern path : String)
      → In pattern patterns
      → is_at pattern path ≡ true
      → (other : String) → In other patterns
      → is_at other path ≡ (pattern == other)
  matched pattern path i here other j = elim (Bool-cases (is_at other path)) [
    | inl both ↦
        both ∙ sym ((eq_iff pattern other).1 (matcher.alone pattern other path i j here both))
    | inr not_both ↦ elim (Bool-cases (pattern == other)) [
      | inl same ↦
          let e = (eq_iff pattern other).0 same in
          absurd (cc (sym (ap (λ s. is_at s path) e) ∙ here, not_both))
      | inr apart ↦ not_both ∙ sym apart
    ]
  ]

  route-Serves : (path : String) (e : Element) → Serves is_at path e → route is_at path ≡ e
  unfolding route
  route-Serves path e (at_login _ h) = rw h refl
  route-Serves path e (at_sessions _ h) =
      rw (matched "/sessions" path (inr (inl refl)) h "/login" (inl refl), h) refl
  route-Serves path e (at_user_info _ h) =
      let others = matched "/user-info" path (inr (inr (inl refl))) h in
      rw (others "/login" (inl refl), others "/sessions" (inr (inl refl)), h) refl
  route-Serves path e (at_info _ h) =
      let others = matched "/info" path (inr (inr (inr (inl refl)))) h in
      rw
        (
          others "/login" (inl refl),
          others "/sessions" (inr (inl refl)),
          others "/user-info" (inr (inr (inl refl))),
          h,
        )
        refl
  route-Serves path e (at_index _ h) =
      let others = matched "/" path (inr (inr (inr (inr (inl refl))))) h in
      rw
        (
          others "/login" (inl refl),
          others "/sessions" (inr (inl refl)),
          others "/user-info" (inr (inr (inl refl))),
          others "/info" (inr (inr (inr (inl refl)))),
          h,
        )
        refl
  route-Serves path e (elsewhere _ h) =
      rw
        (
          h "/login" (inl refl),
          h "/sessions" (inr (inl refl)),
          h "/user-info" (inr (inr (inl refl))),
          h "/info" (inr (inr (inr (inl refl)))),
          h "/" (inr (inr (inr (inr (inl refl))))),
        )
        refl

  route_sessions : route is_at "/sessions" ≡ protected sessions
  unfolding route
  route_sessions =
      let own = matcher.itself "/sessions" (inr (inl refl)) in
      elim (Bool-cases (is_at "/login" "/sessions")) [
        | inl both ↦ absurd (
            apart
              (matcher.alone "/login" "/sessions" "/sessions" (inl refl) (inr (inl refl)) both own))
        | inr only ↦ rw (only, own) refl
      ]
    where
      apart : ◌≢◌ {A = String} "/login" "/sessions"
      apart = ground (arith, eq_iff "/login" "/sessions")

  route_login : route is_at "/login" ≡ login_route
  unfolding route
  route_login = rw (matcher.itself "/login" (inl refl)) refl

  -- What the gate leaves is settled after at most one redirect, to the sign-in page.
  settled_sessions :
      (is_authenticated is_loading : Bool)
      → visit is_at 1 is_authenticated is_loading sessions_location
        ≡ some (passed is_authenticated is_loading (page sessions) sessions_location)
  unfolding require_auth visit render
  settled_sessions is_authenticated true = rw (visit, render, route_sessions) refl
  settled_sessions true false = rw (visit, render, route_sessions) refl
  settled_sessions false false =
      rw (visit, render, route_sessions) (rw (visit, render, route_login) refl)

  pub visit_element :
      (e : Element) (is_authenticated is_loading : Bool) (l : Location)
      → route is_at l.pathname ≡ e
      → visit is_at 2 is_authenticated is_loading l
        ≡ some (destination is_authenticated is_loading e l)
  unfolding require_auth visit render
  visit_element login_route a b l h = rw (visit, render, h) refl
  visit_element (protected p) a true l h = rw (visit, render, h) refl
  visit_element (protected p) true false l h = rw (visit, render, h) refl
  visit_element (protected p) false false l h =
      rw (visit, render, h) (rw (visit, render, route_login) refl)
  visit_element protected_index a true l h = rw (visit, render, h) refl
  visit_element protected_index true false l h = rw (visit, render, h) (settled_sessions true false)
  visit_element protected_index false false l h =
      rw (visit, render, h) (rw (visit, render, route_login) refl)
  visit_element fallback a b l h = rw (visit, render, h) (settled_sessions a b)

  -- After at most two redirects a screen stands, for every state of the gate. On "/login" it is the
  -- sign-in page. While the gate waits it is the spinner. For a user who is signed in it is the page of
  -- the path, and the sessions at their own path for "/" and where no pattern matches. Else it is the
  -- sign-in page, which knows the path that was asked for; where no pattern matches it knows that of
  -- the sessions, since the redirect to these comes first.
  pub visit_settles :
      (is_authenticated is_loading : Bool) (l : Location) (e : Element)
      → Serves is_at l.pathname e
      → visit is_at 2 is_authenticated is_loading l
        ≡ some (destination is_authenticated is_loading e l)
  visit_settles is_authenticated is_loading l e there =
      visit_element e is_authenticated is_loading l (route-Serves l.pathname e there)

  -- Whoever is not signed in and asks for a page ends on the sign-in page, and a sign-in there leads to
  -- the page that was asked for, at its path.
  sign_in_returns :
      (l : Location) (p : Page)
      → route is_at l.pathname ≡ protected p
      → l.pathname ≢ ""
      → let asked : Location = record { pathname = l.pathname; from = none } in
        (visit is_at 2 false false l ≡ some (login, sign_in_at l.pathname))
        × (visit is_at 2 true false (logged_in (sign_in_at l.pathname)) ≡ some (page p, asked))
  unfolding logged_in after_login
  sign_in_returns l p h there = (
    visit_element (protected p) false false l h,
    rw (named l.pathname there) (visit_element (protected p) true false _ h),
  )
    where
      named : (s : String) → s ≢ "" → or_text (some s) "/sessions" ≡ s
      named s k = ground (arith, k, eq_iff s "")
