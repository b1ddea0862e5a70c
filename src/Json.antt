-- ===== src/Json.antt =====
-- The values of a message body, which the handlers receive as `unknown`. A number is natural
-- or a fraction.
use open_chat_be.Prelude.{
  Bool, List, Option, String, [], false, if◌then◌else◌, nat_eq, none, some, string_eq, true, ℕ,
  ◌==◌, ◌∷◌,
}

mutual
  pub data Fields : Type 0 where
    field : String → Value → Fields → Fields
    end : Fields

  pub data Items : Type 0 where
    cons : Value → Items → Items
    nil : Items

  pub data Value : Type 0 where
    obj : Fields → Value
    arr : Items → Value
    text : String → Value
    num : ℕ → Value
    -- a number by its numerator and its denominator
    fraction : ℕ → ℕ → Value
    bool : Bool → Value
    undefined null : Value

pub find_field : String → Fields → Value
find_field name end = undefined
find_field name (field k v fs) = if k == name then v else find_field name fs

-- `payload.name`; a value that is no object has no fields
unfoldable pub get_field : String → Value → Value
unfolding find_field
get_field name (obj fs) = find_field name fs
get_field name v = undefined

-- `typeof value === 'object' && value !== null`
abbrev pub is_object : Value → Bool
is_object (obj fs) = true
is_object (arr vs) = true
is_object v = false

-- the text, where `typeof value === 'string'`
abbrev pub as_text : Value → Option String
as_text (text s) = some s
as_text v = none

-- `Array.isArray(value)`, and the texts among the items
unfoldable pub texts_of : Items → List String
texts_of nil = []
texts_of (cons (text s) vs) = s ∷ texts_of vs
texts_of (cons v vs) = texts_of vs

abbrev pub is_array : Value → Bool
is_array (arr vs) = true
is_array v = false
