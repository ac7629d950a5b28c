-- ===== src/Spec/Build.antt =====
-- The registry, and the constructors and `add_*` methods of the type classes.
-- `all_types` is a dict in insertion order, keyed by each object's name: the list of its objects.
use stuff_sack.Prelude.{
  ℕ, ◌+◌, true, not, List, [], ◌∷◌, ◌++◌, map, Option, none, some, leb, if◌then◌else◌, length,
}
use stuff_sack.Prelude.Text.{Text, codes, same, contains}
use stuff_sack.Prelude.Int.{pos}
use stuff_sack.Errors.{
  spec_parse_error, Result, ok, err, ◌>>=◌, ◌>>◌, require, duplicate_type, unknown_type, bit_limit,
  duplicate_field, duplicate_value, recursive_use,
}
use stuff_sack.Types.{
  BitfieldField, EnumValue, SsType, primitive, struct, message, Fields, nil, append_field,
  field_names, root_name,
}
use stuff_sack.Types.Sizes.{bytes_for_bits, bytes_for_value}

abbrev pub Registry : Type 0
Registry = List SsType

-- The keys of `all_types`.
abbrev pub names : Registry → List Text
names = map root_name

-- `all_types.get(name)`
unfoldable pub find : Text → Registry → Option SsType
find s [] = none
find s (t ∷ ts) = if same (root_name t) s then some t else find s ts

-- `DataType.get_type`
unfoldable pub get_type : Text → Registry → Result SsType
unfolding find
get_type s reg = elim (find s reg) [
  | some t ↦ ok t
  | none ↦ err (spec_parse_error (unknown_type s))
]

-- The check of `DataType.__init__`; the caller then holds `reg ++ self ∷ []`.
unfoldable pub check_new : Text → Registry → Result (Unit {0})
check_new name reg = require (not (contains (names reg) name)) (duplicate_type name)

unfoldable pub total_bits : List BitfieldField → ℕ
total_bits [] = 0
total_bits (f ∷ fs) = f.bits + total_bits fs

abbrev pub bit_names : List BitfieldField → List Text
bit_names = map (λ f. f.name)

-- `Bitfield.add_field`: the new `fields` and `bytes` of the bitfield called `self`.
unfoldable pub add_bits :
    Text → List BitfieldField → BitfieldField → Result (List BitfieldField × ℕ)
unfolding total_bits
add_bits self fields f = do
  let total = total_bits fields + f.bits
  require (leb total 64) (bit_limit f.name self)
  bytes ← bytes_for_bits (pos total)
  require (not (contains (bit_names fields) f.name)) (duplicate_field f.name self)
  ok (fields ++ f ∷ [], bytes)

abbrev pub value_names : List EnumValue → List Text
value_names = map (λ v. v.name)

-- `Enum.add_value`: the new `values` and `bytes` of the enum called `self`.
unfoldable pub add_value : Text → List EnumValue → Text → Option Text → Result (List EnumValue × ℕ)
add_value self values name description = do
  require (not (contains (value_names values) name)) (duplicate_value name self)
  let values' =
      values ++ record { name = name; description = description; value = length values } ∷ []
  bytes ← bytes_for_value (pos (length values')) true
  ok (values', bytes)

-- A `StructField` that is not yet part of a struct.
pub record StructField : Type 0 where
  pub name : Text
  pub type : SsType
  pub description : Option Text
  pub alias : Option Text

-- `Struct.add_field`: the new `fields` of the struct called `self`. Types are told apart by their
-- names, which the registry keeps distinct, so `root_type is self` compares names.
unfoldable pub add_field : Text → Fields → StructField → Result Fields
add_field self fields f = do
  require (not (contains (field_names fields) f.name)) (duplicate_field f.name self)
  require (not (same (root_name f.type) self)) (recursive_use self f.name)
  ok (append_field fields f.name f.type f.description f.alias)

-- `Primitive(name, bytes)`
unfoldable pub new_primitive : Text → ℕ → Registry → Result Registry
unfolding check_new
new_primitive name bytes reg = do check_new name reg; ok (reg ++ primitive name bytes ∷ [])

-- `StructField(name, DataType.get_type(type_name), description)`, as `reset_types` and
-- `Message.__init__` build it
unfoldable pub builtin_field : Text → Text → Text → Registry → Result StructField
unfolding get_type
builtin_field name type description reg = do
  t ← get_type type reg
  ok (record { name = name; type = t; description = some description; alias = none })

-- The fields of a new message: `Message.__init__` adds the header.
unfoldable pub message_fields : Text → Option Text → Registry → Result Fields
unfolding builtin_field add_field
message_fields name description reg = do
  f ←
      builtin_field (codes "ss_header") (codes "SsHeader") (codes "Message header.")
        (reg ++ message name description nil ∷ [])
  add_field name nil f

-- The header struct of `reset_types`
unfoldable pub new_header : Registry → Result Registry
unfolding builtin_field add_field check_new
new_header reg = do
  let name = codes "SsHeader"
  let description = some (codes "Message header.")
  check_new name reg
  f ←
      builtin_field (codes "uid") (codes "uint32") (codes "Message unique id.")
        (reg ++ struct name description nil ∷ [])
  fields ← add_field name nil f
  g ←
      builtin_field (codes "len") (codes "uint16") (codes "Message length.")
        (reg ++ struct name description fields ∷ [])
  fields' ← add_field name fields g
  ok (reg ++ struct name description fields' ∷ [])
