-- ===== src/Sessions/Stream/Encoding.antt =====
-- The sessions and events of ui/src/types.ts as the JSON that the stream carries.
use codespace_operator.Prelude.{String, ◌≡◌, refl, Option, none, some, List, [], ◌∷◌, lookup}
use codespace_operator.Js.Json.{Json, num, str, arr, obj, Items, nil, cons, Fields, end, field, get}
use codespace_operator.Js.Value.{Engine, returns, read}
use codespace_operator.Types.Session.{
  Labels, Metadata, Profile, Spec, Status, UiSession, SessionEvent,
}

-- A property that is left out where it is undefined.
abbrev optional : String → Option Json → Fields → Fields
optional key none fs = fs
optional key (some v) fs = field key v fs

abbrev text : Option String → Option Json
text none = none
text (some s) = some (str s)

abbrev texts : List String → Items
texts [] = nil
texts (s ∷ ss) = cons (str s) (texts ss)

abbrev entries : Labels → Fields
entries [] = end
entries ((k, v) ∷ m) = field k (str v) (entries m)

abbrev object_of : Option Labels → Option Json
object_of none = none
object_of (some m) = some (obj (entries m))

abbrev pub metadata_json : Metadata → Json
metadata_json m = obj (
    field "name" (str m.name) (
      field "namespace" (str m.namespace) (
        optional "labels" (object_of m.labels)
          (optional "annotations" (object_of m.annotations) end))))

abbrev profile_json : Profile → Json
profile_json p =
    let cmd : Option Json = elim p.cmd [ none ↦ none | some ss ↦ some (arr (texts ss)) ] in
    obj (field "ide" (str p.ide) (field "image" (str p.image) (optional "cmd" cmd end)))

abbrev spec_json : Spec → Json
spec_json s =
    let networking : Option Json = elim s.networking [
      | none ↦ none
      | some n ↦ some (obj (optional "host" (text n.host) end))
    ] in
    let replicas : Option Json = elim s.replicas [ none ↦ none | some n ↦ some (num n) ] in
    obj (
      field "profile" (profile_json s.profile)
        (optional "networking" networking (optional "replicas" replicas end)))

abbrev status_json : Status → Json
status_json s = obj (
    optional "phase" (text s.phase)
      (optional "url" (text s.url) (optional "reason" (text s.reason) end)))

unfoldable pub session_json : UiSession → Json
session_json x =
    let status : Option Json = elim x.status [ none ↦ none | some s ↦ some (status_json s) ] in
    obj (
      field "kind" (str "Session") (
        field "apiVersion" (str "codespace.codespace.dev/v1") (
          field "metadata" (metadata_json x.metadata)
            (field "spec" (spec_json x.spec) (optional "status" status end)))))

unfoldable pub event_json : SessionEvent → Json
event_json ev = obj (field "type" (str ev.type) (field "object" (session_json ev.object) end))

pub read-type :
    (engine : Engine) (ev : SessionEvent)
    → read engine "type" (some (event_json ev)) ≡ returns (some (str ev.type))
unfolding read event_json get lookup
read-type engine ev = refl

pub read-object :
    (engine : Engine) (ev : SessionEvent)
    → read engine "object" (some (event_json ev)) ≡ returns (some (session_json ev.object))
unfolding read event_json get lookup
read-object engine ev = refl

pub read-metadata :
    (engine : Engine) (x : UiSession)
    → read engine "metadata" (some (session_json x)) ≡ returns (some (metadata_json x.metadata))
unfolding read session_json get lookup
read-metadata engine x = refl

pub read-namespace :
    (engine : Engine) (m : Metadata)
    → read engine "namespace" (some (metadata_json m)) ≡ returns (some (str m.namespace))
unfolding read get lookup
read-namespace engine m = refl

pub read-name :
    (engine : Engine) (m : Metadata)
    → read engine "name" (some (metadata_json m)) ≡ returns (some (str m.name))
unfolding read get lookup
read-name engine m = refl
