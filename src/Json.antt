-- ===== src/Json.antt =====
-- JSON values as `JSON.parse` gives them and `JSON.stringify` takes them, and the reading of a
-- property. Numbers are natural: the portal reads no others.
use lab_keeper.Common.{
  Bool, List, Option, Text, [], if◌then◌else◌, none, some, spread, text_eq, ℕ, ◌∷◌,
}

mutual
  pub data Json : Type 0 where
    null : Json
    bool : Bool → Json
    num : ℕ → Json
    str : Text → Json
    arr : Items → Json
    obj : Fields → Json

  pub data Items : Type 0 where
    nil : Items
    cons : Json → Items → Items

  pub data Fields : Type 0 where
    end : Fields
    field : Text → Json → Fields → Fields

-- The last of several fields of one name counts.
unfoldable pub lookup : Text → Fields → Option Json
lookup key end = none
lookup key (field name value rest) =
    spread (if text_eq name key then some value else none) (lookup key rest)

-- `value.key`: `none` is undefined. Of `null` the access throws; that is tested before.
unfoldable pub property : Text → Json → Option Json
property key (obj fields) = lookup key fields
property key _ = none

abbrev pub as_text : Option Json → Option Text
as_text none = none
as_text (some (str s)) = some s
as_text (some _) = none

abbrev pub as_number : Option Json → Option ℕ
as_number none = none
as_number (some (num n)) = some n
as_number (some _) = none

abbrev pub as_bool : Option Json → Option Bool
as_bool none = none
as_bool (some (bool b)) = some b
as_bool (some _) = none

unfoldable pub texts_of : Items → List Text
texts_of nil = []
texts_of (cons (str s) rest) = s ∷ texts_of rest
texts_of (cons _ rest) = texts_of rest

abbrev pub as_texts : Option Json → Option (List Text)
as_texts none = none
as_texts (some (arr items)) = some (texts_of items)
as_texts (some _) = none

-- The object with the fields that are present: `JSON.stringify` leaves undefined ones out.
unfoldable pub optional : Text → Option Json → Fields → Fields
optional key none rest = rest
optional key (some value) rest = field key value rest

abbrev pub str_option : Option Text → Option Json
str_option none = none
str_option (some s) = some (str s)
