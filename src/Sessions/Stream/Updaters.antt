-- ===== src/Sessions/Stream/Updaters.antt =====
-- What the updaters of ui/src/hooks/useSessions.ts do with any event, by whether its `object.metadata` is
-- there and gives a key.
use codespace_operator.Prelude.{
  String, ◌≡◌, ◌||◌, refl, ap, Bool, true, false, not, some, List, Bool-cases, inl, inr,
}
use codespace_operator.Prelude.Int.{ℤ}
use codespace_operator.Js.Json.{Json, str}
use codespace_operator.Js.Value.{
  Value, Thrown, exception, thrown, Throws, returns, throws, ◌>>=◌, Engine, read, is_textless,
  strict_equal,
}
use codespace_operator.Types.Session.{UiSession}
use codespace_operator.Sessions.Stream.{
  name_of, is_named_by, is_other, replaced, update_rows, update_targets, Page, both,
}
use codespace_operator.Sessions.Stream.Refines.{
  row_value, row_values, filter_throws-map, find_index_throws-map, name_of-row,
}
use codespace_operator.Sessions.Stream.Broken.{
  IsTyped, IsTyped-bind, update_rows-IsTyped, update_targets-IsTyped, property, is_nullish,
  metadata_of, is_keyless, template-text, template-textless, read-present, read-nullish,
  parent-present,
}

-- The name that the rows are compared with.
abbrev name_in : Json → Value
name_in ev = property "name" (metadata_of ev)

of_last : (a b : Bool) → (a || b) ≡ true → a ≡ false → b ≡ true
of_last false b h n = h
of_last true b h n = cc n

module _ (engine : Engine) (ev : Json) (present : is_nullish (metadata_of ev) ≡ false) where
  object_there : is_nullish (property "object" (some ev)) ≡ false
  object_there = parent-present "metadata" (property "object" (some ev)) present

  event_there : is_nullish (some ev) ≡ false
  event_there = parent-present "object" (some ev) object_there

  read-event_object : read engine "object" (some ev) ≡ returns (property "object" (some ev))
  read-event_object = read-present engine "object" (some ev) event_there

  read-event_metadata :
      read engine "metadata" (property "object" (some ev)) ≡ returns (metadata_of ev)
  read-event_metadata = read-present engine "metadata" (property "object" (some ev)) object_there

  read-event_name : read engine "name" (metadata_of ev) ≡ returns (name_in ev)
  read-event_name = read-present engine "name" (metadata_of ev) present

  compared :
      (x : UiSession)
      → is_named_by engine (some ev) (row_value x)
        ≡ returns (strict_equal (some (str x.metadata.name)) (name_in ev))
  unfolding is_named_by name_of strict_equal
  compared x =
      rw (name_of-row engine x, read-event_object, read-event_metadata, read-event_name) refl

  other_compared :
      (x : UiSession)
      → is_other engine (some ev) (row_value x)
        ≡ returns (not (strict_equal (some (str x.metadata.name)) (name_in ev)))
  unfolding is_other
  other_compared x = rw (compared x) refl

  update_targets-returns :
      (p : List (String × ℤ))
      → is_textless (property "namespace" (metadata_of ev)) ≡ false
      → is_textless (name_in ev) ≡ false
      → (p' : List (String × ℤ)) × (update_targets engine (some ev) p ≡ returns p')
  unfolding update_targets
  update_targets-returns p located named =
      rw
        (
          read-event_object,
          read-event_metadata,
          read-present engine "namespace" (metadata_of ev) present,
          template-text engine (property "namespace" (metadata_of ev)) located,
          read-event_name,
          template-text engine (name_in ev) named,
        )
        (_, refl)

  update_targets-textless :
      (p : List (String × ℤ))
      → (is_textless (property "namespace" (metadata_of ev)) || is_textless (name_in ev)) ≡ true
      → (e : Thrown) × (update_targets engine (some ev) p ≡ throws e)
  unfolding update_targets
  update_targets-textless p h =
      elim (Bool-cases (is_textless (property "namespace" (metadata_of ev)))) [
        | inl lost ↦
            rw
              (
                read-event_object,
                read-event_metadata,
                read-present engine "namespace" (metadata_of ev) present,
                template-textless engine (property "namespace" (metadata_of ev)) lost,
              )
              (_, refl)
        | inr located ↦
            let lost = of_last _ _ h located in
            rw
              (
                read-event_object,
                read-event_metadata,
                read-present engine "namespace" (metadata_of ev) present,
                template-text engine (property "namespace" (metadata_of ev)) located,
                read-event_name,
                template-textless engine (name_in ev) lost,
              )
              (_, refl)
      ]

  replaced-returns :
      (rows : List UiSession)
      → (rows' : List Value) × (replaced engine (some ev) (row_values rows) ≡ returns rows')
  unfolding replaced
  replaced-returns rows =
      rw
        (
          find_index_throws-map (is_named_by engine (some ev))
              (λ x. strict_equal (some (str x.metadata.name)) (name_in ev)) rows compared,
          read-event_object,
        )
        (_, refl)

  update_rows-returns :
      (rows : List UiSession)
      → (rows' : List Value) × (update_rows engine (some ev) (row_values rows) ≡ returns rows')
  unfolding update_rows
  update_rows-returns rows =
      rw (read-present engine "type" (some ev) event_there)
        (elim (Bool-cases (strict_equal (property "type" (some ev)) (some (str "DELETED")))) [
          | inl e ↦ rw e (
            _,
            filter_throws-map (is_other engine (some ev))
                (λ x. not (strict_equal (some (str x.metadata.name)) (name_in ev))) rows
                other_compared,
          )
          | inr e ↦ rw e (replaced-returns rows)
        ])

throws_later :
    {A B : Type 0} (m : Throws A) (f : A → Throws B)
    → ((a : A) → (e : Thrown) × (f a ≡ throws e))
    → (e : Thrown) × ((m >>= f) ≡ throws e)
throws_later (returns a) f h = h a
throws_later (throws e) f h = (e, refl)

type_error_of :
    {A : Type 0} (m : Throws A)
    → IsTyped m
    → ((e : Thrown) × (m ≡ throws e))
    → (t : String) × (m ≡ throws (exception "TypeError" t))
type_error_of (returns a) h (e, d) = absurd (cc d)
type_error_of (throws (exception name t)) h (e, d) = (t, ap (λ n. throws (exception n t)) h)
type_error_of (throws (thrown v)) h (e, d) = absurd h

update_targets-throws :
    (engine : Engine) (ev : Json)
    → is_nullish (metadata_of ev) ≡ true
    → (p : List (String × ℤ)) → (e : Thrown) × (update_targets engine (some ev) p ≡ throws e)
unfolding update_targets
update_targets-throws engine ev missing p = elim (Bool-cases (is_nullish (some ev))) [
  | inl none_there ↦
      let (e, lost) = read-nullish engine "object" (some ev) none_there in rw lost (_, refl)
  | inr there ↦ elim (Bool-cases (is_nullish (property "object" (some ev)))) [
    | inl no_object ↦
        let (e, lost) = read-nullish engine "metadata" (property "object" (some ev)) no_object in
        rw (read-present engine "object" (some ev) there, lost) (_, refl)
    | inr object ↦
        let (e, lost) = read-nullish engine "namespace" (metadata_of ev) missing in
        rw
          (
            read-present engine "object" (some ev) there,
            read-present engine "metadata" (property "object" (some ev)) object,
            lost,
          )
          (_, refl)
  ]
]

of_rest : (a b c : Bool) → (a || b || c) ≡ true → a ≡ false → (b || c) ≡ true
of_rest false b c h n = h
of_rest true b c h n = cc n

update_targets-keyless :
    (engine : Engine) (ev : Json)
    → is_keyless ev ≡ true
    → (p : List (String × ℤ)) → (e : Thrown) × (update_targets engine (some ev) p ≡ throws e)
update_targets-keyless engine ev h p = elim (Bool-cases (is_nullish (metadata_of ev))) [
  | inl missing ↦ update_targets-throws engine ev missing p
  | inr present ↦ update_targets-textless engine ev present p (
      of_rest (is_nullish (metadata_of ev)) (is_textless (property "namespace" (metadata_of ev)))
        (is_textless (name_in ev)) h present)
]

pub both-throws :
    (engine : Engine) (ev : Json)
    → is_keyless ev ≡ true
    → (s : Page) → (m : String) × (both engine (some ev) s ≡ throws (exception "TypeError" m))
unfolding both
both-throws engine ev keyless s =
    type_error_of (both engine (some ev) s)
      (IsTyped-bind _ _ (update_rows-IsTyped engine (some ev) s.rows) (λ rows.
        IsTyped-bind _ _ (update_targets-IsTyped engine (some ev) s.targets) (λ targets. tt)))
      (throws_later (update_rows engine (some ev) s.rows) _ (λ rows.
        let (e, lost) = update_targets-keyless engine ev keyless s.targets in rw lost (_, refl)))

none_of : (a b c : Bool) → (a || b || c) ≡ false → (a ≡ false) × (b ≡ false) × (c ≡ false)
none_of false false false h = (refl, refl, refl)
none_of false false true h = cc h
none_of false true c h = cc h
none_of true b c h = cc h

pub both-returns :
    (engine : Engine) (ev : Json)
    → is_keyless ev ≡ false
    → (s : Page) (rows : List UiSession) → s.rows ≡ row_values rows
    → (r : List Value × List (String × ℤ)) × (both engine (some ev) s ≡ returns r)
unfolding both
both-returns engine ev keyed s rows shown =
    let (present, located, named) =
      none_of (is_nullish (metadata_of ev)) (is_textless (property "namespace" (metadata_of ev)))
        (is_textless (name_in ev)) keyed in
    let (rows', e) = update_rows-returns engine ev present rows in
    let (targets', d) = update_targets-returns engine ev present s.targets located named in
    rw (shown, e, d) (_, refl)
