-- ===== src/Namespaces/Laws.antt =====
-- Which namespaces the header may show.
use codespace_operator.Prelude.{
  String, ◌≡◌, ◌≢◌, ◌↔◌, ◌⊎◌, inl, inr, refl, Bool, true, false, Option, List, [], ◌∷◌, ◌++◌, In,
  In-append, In-filter, includes, includes_iff, filter, Bool-cases, text_cases,
}
use codespace_operator.Js.Sort.{sort, IsSorted, sort-IsSorted, In-sort}
use codespace_operator.Types.Introspection.{UserIntrospectionResponse, ServerIntrospectionResponse}
use codespace_operator.Namespaces.{
  user_allowed, server_all, server_with_sessions, has_cluster_scope, distinct_from, distinct,
  if_empty, merge_cluster, merge_limited, merge_lists, merge, default_namespaces,
}

In-distinct_from :
    (a : String) (seen xs : List String) → In a (distinct_from seen xs) ↔ (In a xs × (¬ In a seen))
unfolding distinct_from
In-distinct_from a seen [] = (λ h. absurd h, λ h. h.0)
In-distinct_from a seen (x ∷ xs) = elim (Bool-cases (includes seen x)) [
  | inl e ↦ rw e (
    λ i. let (m, n) = (In-distinct_from a seen xs).0 i in (inr m, n),
    λ h. elim h.0 [
      | inl q ↦ absurd (h.1 (rw q ((includes_iff seen x).0 e)))
      | inr m ↦ (In-distinct_from a seen xs).1 (m, h.1)
    ],
  )
  | inr e ↦ rw e (
    λ i. elim i [
      | inl q ↦ (inl q, λ s. absurd (cc (e, (includes_iff seen x).1 (rw (← q) s))))
      | inr r ↦ let (m, n) = (In-distinct_from a (x ∷ seen) xs).0 r in (inr m, λ s. n (inr s))
    ],
    λ h. elim (text_cases a x) [
      | inl q ↦ inl q
      | inr apart ↦ elim h.0 [
        | inl q ↦ inl q
        | inr m ↦ inr (
            (In-distinct_from a (x ∷ seen) xs).1
              (m, λ s. elim s [ inl q ↦ apart q | inr t ↦ h.1 t ]))
      ]
    ],
  )
]

In-distinct : (a : String) (xs : List String) → In a (distinct xs) ↔ In a xs
unfolding distinct
In-distinct a xs =
    (λ i. ((In-distinct_from a [] xs).0 i).0, λ i. (In-distinct_from a [] xs).1 (i, λ h. h))

In-if_empty : (a : String) (xs ys : List String) → In a (if_empty xs ys) → In a xs ⊎ In a ys
In-if_empty a [] ys h = inr h
In-if_empty a (x ∷ xs) ys h = inl h

-- The lists of a user without cluster scope.
module _ (accessible with_sessions : List String) (ns : String) where
  abbrev IsShowable : Type 0
  IsShowable = In ns accessible ⊎ (ns ≡ "default")

  default_showable : In ns default_namespaces → IsShowable
  default_showable (inl e) = inr e
  default_showable (inr i) = absurd i

  all_showable :
      In ns (if_empty (merge_limited accessible with_sessions).all_namespaces default_namespaces)
      → IsShowable
  unfolding merge_limited
  all_showable i = elim (In-if_empty ns _ _ i) [
    | inl m ↦ inl ((In-sort ns accessible).0 m)
    | inr d ↦ default_showable d
  ]

  session_showable :
      In ns
        (if_empty (merge_limited accessible with_sessions).session_namespaces default_namespaces)
      → IsShowable
  unfolding merge_limited
  session_showable i = elim (In-if_empty ns _ _ i) [
    | inl m ↦ elim (In-if_empty ns _ _ m) [
      | inl f ↦
          let (_, kept) =
            (In-filter (includes (sort accessible)) ns with_sessions).0 ((In-sort ns _).0 f) in
          inl ((In-sort ns accessible).0 ((includes_iff (sort accessible) ns).0 kept))
      | inr a ↦ inl ((In-sort ns accessible).0 a)
    ]
    | inr d ↦ default_showable d
  ]

lists_confined :
    (b : Bool) (accessible discovered with_sessions : List String) (ns : String)
    → b ≡ false
    → In ns (merge_lists b accessible discovered with_sessions).all_namespaces
      ⊎ In ns (merge_lists b accessible discovered with_sessions).session_namespaces
    → In ns accessible ⊎ (ns ≡ "default")
unfolding merge_lists
lists_confined true accessible discovered with_sessions ns h i = cc
lists_confined false accessible discovered with_sessions ns h (inl i) =
    all_showable accessible with_sessions ns i
lists_confined false accessible discovered with_sessions ns h (inr i) =
    session_showable accessible with_sessions ns i

-- A user without cluster scope is shown no namespace, in either list, other than the allowed ones and
-- "default", whatever the server discovered.
pub merge_confined :
    (user : Option UserIntrospectionResponse) (server : Option ServerIntrospectionResponse)
    (ns : String)
    → has_cluster_scope user ≡ false
    → In ns (merge user server).all_namespaces ⊎ In ns (merge user server).session_namespaces
    → In ns (user_allowed user) ⊎ (ns ≡ "default")
unfolding merge
merge_confined user server ns h i =
    lists_confined (has_cluster_scope user) (user_allowed user) (server_all server)
      (server_with_sessions server) ns h i

if_empty_of_In : (a : String) (xs ys : List String) → In a xs → if_empty xs ys ≡ xs
if_empty_of_In a [] ys i = absurd i
if_empty_of_In a (x ∷ xs) ys i = refl

lists_complete :
    (b : Bool) (accessible discovered with_sessions : List String) (ns : String)
    → b ≡ true
    → In ns accessible ⊎ In ns discovered
    → In ns (merge_lists b accessible discovered with_sessions).all_namespaces
unfolding merge_lists merge_cluster
lists_complete false accessible discovered with_sessions ns h i = cc
lists_complete true accessible discovered with_sessions ns h i =
    let listed =
      (In-sort ns (distinct (accessible ++ discovered))).1 (
        (In-distinct ns (accessible ++ discovered)).1 ((In-append ns accessible discovered).1 i)) in
    rw (if_empty_of_In ns (sort (distinct (accessible ++ discovered))) default_namespaces listed)
      listed

-- With cluster scope every allowed and every discovered namespace is in the list of all namespaces.
merge_complete :
    (user : Option UserIntrospectionResponse) (server : Option ServerIntrospectionResponse)
    (ns : String)
    → has_cluster_scope user ≡ true
    → In ns (user_allowed user) ⊎ In ns (server_all server)
    → In ns (merge user server).all_namespaces
unfolding merge
merge_complete user server ns h i =
    lists_complete (has_cluster_scope user) (user_allowed user) (server_all server)
      (server_with_sessions server) ns h i

abbrev pub IsList : List String → Type 0
IsList xs = (xs ≢ []) × IsSorted xs

if_empty-IsList : (xs ys : List String) → IsSorted xs → IsList ys → IsList (if_empty xs ys)
if_empty-IsList [] ys h k = k
if_empty-IsList (x ∷ xs) ys h k = ((λ e. cc e), h)

if_empty-IsSorted : (xs ys : List String) → IsSorted xs → IsSorted ys → IsSorted (if_empty xs ys)
if_empty-IsSorted [] ys h k = k
if_empty-IsSorted (x ∷ xs) ys h k = h

-- Neither list that is shown is ever empty, and both are sorted.
merge-IsList :
    (user : Option UserIntrospectionResponse) (server : Option ServerIntrospectionResponse)
    → IsList (merge user server).all_namespaces × IsList (merge user server).session_namespaces
unfolding merge merge_lists
merge-IsList user server =
    lists (has_cluster_scope user) (user_allowed user) (server_all server)
      (server_with_sessions server)
  where
    default-IsList : IsList default_namespaces
    default-IsList = ((λ e. cc e), (tt, tt))

    lists :
        (b : Bool) (xs ys zs : List String)
        → IsList (merge_lists b xs ys zs).all_namespaces
          × IsList (merge_lists b xs ys zs).session_namespaces
    lists true xs ys zs =
        unfold merge_cluster in
        (
          if_empty-IsList _ _ (sort-IsSorted (distinct (xs ++ ys))) default-IsList,
          if_empty-IsList _ _ (if_empty-IsSorted _ _ (sort-IsSorted zs) (sort-IsSorted xs))
              default-IsList,
        )
    lists false xs ys zs =
        unfold merge_limited in
        (
          if_empty-IsList _ _ (sort-IsSorted xs) default-IsList,
          if_empty-IsList _ _
              (if_empty-IsSorted _ _ (sort-IsSorted (filter _ zs)) (sort-IsSorted xs))
              default-IsList,
        )
