-- ===== src/Js/Json.antt =====
-- JSON values as `any` holds them, truthiness, property access, and JSON.stringify. Numbers are
-- whole; an object is the list of its own properties in the order of Object.entries.
use Prim.Native.String.{[], ◌∷◌, ◌++◌, char_at}
use codespace_operator.Js.Text.{show}
use codespace_operator.Prelude.{
  ℕ, suc, ◌/◌, ◌%◌, String, Char, code, ◌≡◌, refl, Bool, true, false, not, Option, none, some, List,
  ltb, eqb, ◌==◌, if◌then◌else◌, lookup,
}
use codespace_operator.Prelude.Int.{ℤ, pos, negsuc}

mutual
  pub data Json : Type 0 where
    null : Json
    bool : Bool → Json
    num : ℤ → Json
    str : String → Json
    arr : Items → Json
    obj : Fields → Json

  pub data Items : Type 0 where
    nil : Items
    cons : Json → Items → Items

  pub data Fields : Type 0 where
    end : Fields
    field : String → Json → Fields → Fields

abbrev pub elements : Items → List Json
elements nil = List.[]
elements (cons v vs) = List.◌∷◌ v (elements vs)

abbrev pub fields : Fields → List (String × Json)
fields end = List.[]
fields (field k v fs) = List.◌∷◌ (k, v) (fields fs)

-- `x.key`, undefined where it is missing; of null it is a TypeError, which the callers test for.
unfoldable pub get : Json → String → Option Json
unfolding lookup
get (obj fs) key = lookup key (fields fs)
get _ key = none

unfoldable pub truthy : Json → Bool
truthy null = false
truthy (bool b) = b
truthy (num (pos n)) = not (eqb n 0)
truthy (num (negsuc n)) = true
truthy (str s) = not (s == "")
truthy (arr _) = true
truthy (obj _) = true

-- `x || undefined`: an absent or falsy value is none
unfoldable pub present : Option Json → Option Json
unfolding truthy
present none = none
present (some v) = if truthy v then some v else none

show_ℤ : ℤ → String
show_ℤ (pos n) = show n
show_ℤ (negsuc n) = "-" ++ show (suc n)

-- The escapes of a JSON text.
quote_char : ℕ → String → String
quote_char n plain =
    if eqb n 34
    then "\\\""
    else if eqb n 92
    then "\\\\"
    else if eqb n 8
    then "\\b"
    else if eqb n 12
    then "\\f"
    else if eqb n 10
    then "\\n"
    else if eqb n 13
    then "\\r"
    else if eqb n 9
    then "\\t"
    else if ltb n 32
    then "\\u00" ++ (hex_lower (n / 16) ∷ hex_lower (n % 16) ∷ "")
    else plain
  where
    hex_lower : ℕ → Char
    hex_lower d = char_at "0123456789abcdef" d

quote_chars : String → String
quote_chars [] = ""
quote_chars (c ∷ s) = quote_char (code c) (c ∷ "") ++ quote_chars s

quote : String → String
unfolding quote_chars quote_char
quote s = "\"" ++ quote_chars s ++ "\""

-- `JSON.stringify(v)`
unfoldable mutual
  unfolding quote show_ℤ

  pub stringify : Json → String
  stringify null = "null"
  stringify (bool true) = "true"
  stringify (bool false) = "false"
  stringify (num n) = show_ℤ n
  stringify (str s) = quote s
  stringify (arr vs) = "[" ++ stringify_items "" vs ++ "]"
  stringify (obj fs) = "{" ++ stringify_fields "" fs ++ "}"

  pub stringify_items : String → Items → String
  stringify_items sep nil = ""
  stringify_items sep (cons v vs) = sep ++ stringify v ++ stringify_items "," vs

  pub stringify_fields : String → Fields → String
  stringify_fields sep end = ""
  stringify_fields sep (field k v fs) =
      sep ++ quote k ++ ":" ++ stringify v ++ stringify_fields "," fs

-- `String(v)`, which `new Error(v)` applies to what it is given
unfoldable mutual
  unfolding show_ℤ

  pub to_text : Json → String
  to_text null = "null"
  to_text (bool true) = "true"
  to_text (bool false) = "false"
  to_text (num n) = show_ℤ n
  to_text (str s) = s
  to_text (arr vs) = items_text "" vs
  to_text (obj fs) = "[object Object]"

  pub items_text : String → Items → String
  items_text sep nil = ""
  items_text sep (cons null vs) = sep ++ items_text "," vs
  items_text sep (cons v vs) = sep ++ to_text v ++ items_text "," vs

stringify_test :
    stringify
      (obj (field "a\"b" (arr (cons (num (negsuc 1)) (cons null nil))) (field "c" (str "x\n") end)))
    ≡ "{\"a\\\"b\":[-2,null],\"c\":\"x\\n\"}"
unfolding stringify show
stringify_test = refl
