-- ===== src/Spec/FromYaml.antt =====
-- The `from_yaml` methods. A registry under construction is the finished types `reg` with the
-- object being built at its end, so a field that names that object finds it, as in the source.
use stuff_sack.Prelude.{
  ℕ, suc, Bool, true, false, List, [], ◌∷◌, ◌++◌, Option, none, some, if◌then◌else◌,
}
use stuff_sack.Prelude.Text.{Text, codes}
use stuff_sack.Prelude.Int.{ℤ, pos}
use stuff_sack.Errors.{
  spec_parse_error, key_error, Result, ok, err, ◌>>=◌, ◌>>◌, require, bad_array, array_length,
  bits_not_int, bits_not_positive, value_not_null, bad_field_type, alias_not_string,
  name_not_string, description_not_string, unrecognized_type,
}
use stuff_sack.Yaml.{
  Yaml, null, bool, int, str, seq, dict, Items, Entries, end, entry, is_str, is_text, get,
  check_map, check_map_with_meta, check_array, get_from_map_with_meta,
}
use stuff_sack.Types.{
  BitfieldField, EnumValue, SsType, bitfield, enum, struct, message, array, Fields,
}
use stuff_sack.Spec.Build.{
  Registry, get_type, check_new, add_bits, add_value, StructField, add_field, message_fields,
}

-- `isinstance(v, int)`, with the number; a Python `bool` is an `int`.
unfoldable pub as_int : Yaml → Option ℤ
as_int (int z) = some z
as_int (bool b) = some (pos (if b then 1 else 0))
as_int _ = none

-- `m.get(key)` where only strings have passed the checks
unfoldable pub get_text : Text → Entries → Option Text
get_text key m = elim (get key m) [ some (str s) ↦ some s | _ ↦ none ]

-- `length < 1` raises
unfoldable pub positive : ℤ → Option ℕ
positive (pos (suc n)) = some (suc n)
positive _ = none

unfoldable pub sized_array : Result SsType → ℤ → Result SsType
unfolding positive
sized_array type z = do
  t ← type
  elim (positive z) [ some n ↦ ok (array t n) | none ↦ err (spec_parse_error array_length) ]

-- The element count, and the array of it; a count that is no integer is refused first.
unfoldable pub counted_array : Result SsType → Yaml → Result SsType
unfolding as_int sized_array
counted_array type n = elim (as_int n) [
  | some z ↦ sized_array type z
  | none ↦ err (spec_parse_error bad_array)
]

-- `Array.from_yaml`
unfoldable pub array_from_yaml : Registry → Items → Result SsType
unfolding counted_array
array_from_yaml reg (Items.cons (str s) (Items.cons n Items.nil)) = counted_array (get_type s reg) n
array_from_yaml reg (Items.cons (seq xs) (Items.cons n Items.nil)) =
    counted_array (array_from_yaml reg xs) n
array_from_yaml reg _ = err (spec_parse_error bad_array)

-- `BitfieldField.from_yaml`
unfoldable pub bits_from_yaml : Yaml → Result BitfieldField
unfolding as_int positive get_text
bits_from_yaml yaml = do
  m ← check_map_with_meta yaml
  (name, value) ← get_from_map_with_meta m
  elim (as_int value) [
    | none ↦ err (spec_parse_error bits_not_int)
    | some z ↦ elim (positive z) [
      | none ↦ err (spec_parse_error bits_not_positive)
      | some n ↦
          ok (record { name = name; bits = n; description = get_text (codes "_description") m })
    ]
  ]

unfoldable pub is_null : Yaml → Bool
is_null null = true
is_null _ = false

-- `EnumValue.from_yaml`: the name and the description
unfoldable pub value_from_yaml : Yaml → Result (Text × Option Text)
unfolding is_null get_text
value_from_yaml yaml = do
  m ← check_map_with_meta yaml
  (name, value) ← get_from_map_with_meta m
  require (is_null value) value_not_null
  ok (name, get_text (codes "_description") m)

-- The type object of a struct field
unfoldable pub type_from_yaml : Registry → Yaml → Result SsType
type_from_yaml reg (seq xs) = array_from_yaml reg xs
type_from_yaml reg (str s) = get_type s reg
type_from_yaml reg _ = err (spec_parse_error bad_field_type)

-- `alias_map[alias_tag]`, if it is there; without a tag the key is `None`
unfoldable pub get_tag : Option Text → Entries → Option Yaml
unfolding is_null
get_tag (some tag) m = get tag m
get_tag none end = none
get_tag none (entry k v m) = if is_null k then some v else get_tag none m

unfoldable pub alias_from_yaml : Option Text → Entries → Result (Option Text)
unfolding get_tag
alias_from_yaml tag m = elim (get (codes "_alias") m) [
  | some (dict aliases) ↦ elim (get_tag tag aliases) [
    | none ↦ ok none
    | some (str s) ↦ ok (some s)
    | some _ ↦ err (spec_parse_error alias_not_string)
  ]
  | _ ↦ ok none
]

-- `StructField.from_yaml`
unfoldable pub field_from_yaml : Option Text → Registry → Yaml → Result StructField
unfolding type_from_yaml alias_from_yaml get_text
field_from_yaml tag reg yaml = do
  m ← check_map_with_meta yaml
  (name, value) ← get_from_map_with_meta m
  t ← type_from_yaml reg value
  alias ← alias_from_yaml tag m
  ok (record {
    name = name;
    type = t;
    description = get_text (codes "_description") m;
    alias = alias;
  })

-- The loop of `Bitfield.from_yaml`
unfoldable pub bitfield_loop :
    Text → List BitfieldField → ℕ → Items → Result (List BitfieldField × ℕ)
bitfield_loop name fields bytes Items.nil = ok (fields, bytes)
bitfield_loop name fields bytes (Items.cons y ys) = do
  f ← bits_from_yaml y
  (fields', bytes') ← add_bits name fields f
  bitfield_loop name fields' bytes' ys

-- The loop of `Enum.from_yaml`
unfoldable pub enum_loop : Text → List EnumValue → ℕ → Items → Result (List EnumValue × ℕ)
enum_loop name values bytes Items.nil = ok (values, bytes)
enum_loop name values bytes (Items.cons y ys) = do
  (value, description) ← value_from_yaml y
  (values', bytes') ← add_value name values value description
  enum_loop name values' bytes' ys

-- The loop of `Struct.from_yaml`; `make` is the object with the fields that it has so far.
unfoldable pub struct_loop :
    Option Text → Registry → Text → (Fields → SsType) → Fields → Items → Result Fields
struct_loop tag reg name make fields Items.nil = ok fields
struct_loop tag reg name make fields (Items.cons y ys) = do
  f ← field_from_yaml tag (reg ++ make fields ∷ []) y
  fields' ← add_field name fields f
  struct_loop tag reg name make fields' ys

-- `yaml[key]`
unfoldable pub subscript : Text → Entries → Result Yaml
subscript key m = elim (get key m) [ some v ↦ ok v | none ↦ err key_error ]

-- `yaml[key]`, checked to be a list
unfoldable pub get_array : Text → Entries → Result Items
unfolding subscript
get_array key m = do v ← subscript key m; check_array v

abbrev pub description_key : Text
description_key = codes "description"

-- `Bitfield.from_yaml`
unfoldable pub bitfield_from_yaml : Text → Yaml → Registry → Result SsType
unfolding get_array bitfield_loop get_text
bitfield_from_yaml name yaml reg = do
  m ← check_map yaml (codes "type" ∷ codes "fields" ∷ []) (description_key ∷ []) true
  items ← get_array (codes "fields") m
  check_new name reg
  (fields, bytes) ← bitfield_loop name [] 1 items
  ok (bitfield name (get_text description_key m) fields bytes)

-- `Enum.from_yaml`
unfoldable pub enum_from_yaml : Text → Yaml → Registry → Result SsType
unfolding get_array enum_loop get_text
enum_from_yaml name yaml reg = do
  m ← check_map yaml (codes "type" ∷ codes "values" ∷ []) (description_key ∷ []) true
  items ← get_array (codes "values") m
  check_new name reg
  (values, bytes) ← enum_loop name [] 1 items
  ok (enum name (get_text description_key m) values bytes)

-- `Struct.from_yaml`
unfoldable pub struct_from_yaml : Option Text → Text → Yaml → Registry → Result SsType
unfolding get_array struct_loop get_text
struct_from_yaml tag name yaml reg = do
  m ← check_map yaml (codes "type" ∷ codes "fields" ∷ []) (description_key ∷ []) true
  items ← get_array (codes "fields") m
  check_new name reg
  let make = struct name (get_text description_key m)
  fields ← struct_loop tag reg name make Fields.nil items
  ok (make fields)

-- `Message.from_yaml`, which is `Struct.from_yaml` with `Message`'s constructor
unfoldable pub message_from_yaml : Option Text → Text → Yaml → Registry → Result SsType
unfolding get_array struct_loop get_text
message_from_yaml tag name yaml reg = do
  m ← check_map yaml (codes "type" ∷ codes "fields" ∷ []) (description_key ∷ []) true
  items ← get_array (codes "fields") m
  check_new name reg
  let make = message name (get_text description_key m)
  header ← message_fields name (get_text description_key m) reg
  fields ← struct_loop tag reg name make header items
  ok (make fields)

-- The dispatch of `DataType.from_yaml` on `yaml['type']`
unfoldable pub dispatch : Option Text → Text → Yaml → Registry → Yaml → Result SsType
unfolding bitfield_from_yaml enum_from_yaml struct_from_yaml message_from_yaml
dispatch tag name yaml reg kind =
    if is_text (codes "Bitfield") kind
    then bitfield_from_yaml name yaml reg
    else if is_text (codes "Enum") kind
    then enum_from_yaml name yaml reg
    else if is_text (codes "Struct") kind
    then struct_from_yaml tag name yaml reg
    else if is_text (codes "Message") kind
    then message_from_yaml tag name yaml reg
    else err (spec_parse_error unrecognized_type)

unfoldable pub describes : Entries → Bool
describes m = elim (get description_key m) [ none ↦ true | some v ↦ is_str v ]

-- `DataType.from_yaml`: the registry with the new type at its end
unfoldable pub from_yaml : Option Text → Yaml → Yaml → Registry → Result Registry
unfolding dispatch describes subscript
from_yaml tag (str name) yaml reg = do
  m ← check_map yaml (codes "type" ∷ []) [] false
  require (describes m) description_not_string
  kind ← subscript (codes "type") m
  t ← dispatch tag name yaml reg kind
  ok (reg ++ t ∷ [])
from_yaml tag _ yaml reg = err (spec_parse_error name_not_string)
