-- ===== src/Stream/Value.antt =====
-- JavaScript values as the stream code inspects them: `typeof`, object fields and safe integers.
use openclaw_mattermost_cust.Base.{
  ◌+◌, Bool, false, String, ◌==◌, Option, none, some, leb, if◌then◌else◌,
}
use openclaw_mattermost_cust.Base.Int.{ℤ, pos_part, neg_part, eqℤ}

mutual
  pub data Js : Type 0 where
    undefined null array : Js
    boolean : Bool → Js
    integer : ℤ → Js
    other_number : Js
    text : String → Js
    object : Fields → Js

  pub data Fields : Type 0 where
    nil : Fields
    field : String → Js → Fields → Fields

-- `value.name` over an object's own fields.
unfoldable pub get_field : String → Fields → Js
get_field name nil = undefined
get_field name (field key v rest) = if key == name then v else get_field name rest

-- `isRecord`: an object that is neither null nor an array.
abbrev pub as_record : Js → Option Fields
as_record (object fields) = some fields
as_record _ = none

abbrev pub as_text : Js → Option String
as_text (text s) = some s
as_text _ = none

abbrev pub as_boolean : Js → Option Bool
as_boolean (boolean b) = some b
as_boolean _ = none

-- `Number.isSafeInteger`: an integer of absolute value at most 2^53 - 1.
abbrev pub as_safe_integer : Js → Option ℤ
as_safe_integer (integer z) =
    if leb (pos_part z + neg_part z) 9007199254740991 then some z else none
as_safe_integer _ = none

-- `value === text` and `value === number`.
abbrev pub is_text : Js → String → Bool
is_text (text s) expected = s == expected
is_text _ expected = false

abbrev pub is_integer : Js → ℤ → Bool
is_integer (integer z) expected = eqℤ z expected
is_integer _ expected = false
