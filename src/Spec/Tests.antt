-- ===== src/Spec/Tests.antt =====
-- A small specification, and runs of the reader on it.
use stuff_sack.Prelude.{ℕ, ◌≡◌, refl, List, [], ◌∷◌, ◌++◌, none, some, map, inl, arith}
use stuff_sack.Prelude.Text.{Text, codes}
use stuff_sack.Prelude.Int.{pos}
use stuff_sack.Errors.{Result, ok, ◌>>=◌}
use stuff_sack.Yaml.{Yaml, null, int, str, seq, dict, Items, Entries, end, entry}
use stuff_sack.Types.{
  BitfieldField, EnumValue, SsType, packed_size, root_name, primitive, enum, bitfield, struct,
  message, array, nil, field,
}
use stuff_sack.Spec.WellFormed.{header_type, IsBitfield, IsEnum}
use stuff_sack.Spec.WellFormed.Loops.{bitfield_loop-IsBitfield, enum_loop-IsEnum}
use stuff_sack.Spec.Parsed.{IsParsed, parse_yaml-IsParsed}
use stuff_sack.Spec.Build.{total_bits}
use stuff_sack.Spec.FromYaml.{bitfield_loop, enum_loop}
use stuff_sack.Spec.Parse.{ClassState, parse_yaml}

abbrev pair : Text → Yaml → Yaml
pair k v = dict (entry (str k) v end)

infixr 60 ◌▸◌
abbrev ◌▸◌ : Yaml → Items → Items
y ▸ ys = Items.cons y ys

abbrev type_of : Text → Text → Yaml → Yaml
type_of kind key v = dict (entry (str (codes "type")) (str kind) (entry (str key) v end))

-- An enum, a bitfield, a struct, a message with an array of the struct and a message with the enum.
abbrev pub sample : Yaml
sample = dict (
    entry (str (codes "Mode"))
      (type_of (codes "Enum") (codes "values")
        (seq (pair (codes "Off") null ▸ pair (codes "On") null ▸ Items.nil)))
      (entry (str (codes "Flags"))
        (type_of (codes "Bitfield") (codes "fields")
          (seq (pair (codes "a") (int (pos 3)) ▸ pair (codes "b") (int (pos 9)) ▸ Items.nil)))
        (entry (str (codes "Point"))
          (type_of (codes "Struct") (codes "fields") (
            seq (
              pair (codes "x") (str (codes "int16"))
              ▸ pair (codes "mode") (str (codes "Mode"))
              ▸ Items.nil)))
          (entry (str (codes "Track"))
            (type_of (codes "Message") (codes "fields") (
              seq (
                pair (codes "points") (seq (str (codes "Point") ▸ int (pos 2) ▸ Items.nil))
                ▸ pair (codes "flags") (str (codes "Flags"))
                ▸ Items.nil)))
            (entry (str (codes "Beat"))
              (type_of (codes "Message") (codes "fields")
                (seq (pair (codes "mode") (str (codes "Mode")) ▸ Items.nil)))
              end)))))

sizes : Yaml → Result (List (Text × ℕ))
unfolding parse_yaml packed_size root_name
sizes y = do (types, state) ← parse_yaml y none; ok (map (λ t. (root_name t, packed_size t)) types)

run : Result (List (Text × ℕ))
unfolding sizes
run = sizes sample

abbrev pub header_info : Text
header_info = codes "Message header."

abbrev pub builtins : List SsType
builtins =
    primitive (codes "uint8") 1
    ∷ primitive (codes "uint16") 2
    ∷ primitive (codes "uint32") 4
    ∷ primitive (codes "uint64") 8
    ∷ primitive (codes "int8") 1
    ∷ primitive (codes "int16") 2
    ∷ primitive (codes "int32") 4
    ∷ primitive (codes "int64") 8
    ∷ primitive (codes "bool") 1
    ∷ primitive (codes "float") 4
    ∷ primitive (codes "double") 8
    ∷ header_type
    ∷ []

abbrev pub mode : SsType
mode =
    enum (codes "Mode") none
      (record { name = codes "Off"; description = none; value = 0 }
        ∷ record { name = codes "On"; description = none; value = 1 }
        ∷ [])
      1

abbrev flags : SsType
flags =
    bitfield (codes "Flags") none
      (record { name = codes "a"; bits = 3; description = none }
        ∷ record { name = codes "b"; bits = 9; description = none }
        ∷ [])
      2

abbrev point : SsType
point = struct (codes "Point") none (
    field (codes "x") (primitive (codes "int16") 2) none none
      (field (codes "mode") mode none none nil))

abbrev pub track : SsType
track = message (codes "Track") none (
    field (codes "ss_header") header_type (some header_info) none (
      field (codes "points") (array point 2) none none (field (codes "flags") flags none none nil)))

abbrev pub beat : SsType
beat = message (codes "Beat") none (
    field (codes "ss_header") header_type (some header_info) none
      (field (codes "mode") mode none none nil))

abbrev pub sample_types : List SsType
sample_types = builtins ++ mode ∷ flags ∷ point ∷ track ∷ beat ∷ []

pub sample-parsed :
    parse_yaml sample none ≡ ok (sample_types, record { all_types = builtins; alias_tag = none })
unfolding stuff_sack.Yaml.is_str stuff_sack.Yaml.is_dict stuff_sack.Yaml.is_text stuff_sack.Yaml.get
    stuff_sack.Yaml.listed stuff_sack.Yaml.check_required stuff_sack.Yaml.check_known
    stuff_sack.Yaml.check_map stuff_sack.Yaml.is_meta stuff_sack.Yaml.get_from_map_with_meta
    stuff_sack.Yaml.check_metadata stuff_sack.Yaml.check_entries stuff_sack.Yaml.check_map_with_meta
    stuff_sack.Yaml.check_array stuff_sack.Spec.Build.find stuff_sack.Spec.Build.get_type
    stuff_sack.Spec.Build.check_new stuff_sack.Spec.Build.total_bits stuff_sack.Spec.Build.add_bits
    stuff_sack.Spec.Build.add_value stuff_sack.Spec.Build.add_field
    stuff_sack.Spec.Build.new_primitive stuff_sack.Spec.Build.builtin_field
    stuff_sack.Spec.Build.message_fields stuff_sack.Spec.Build.new_header
    stuff_sack.Spec.FromYaml.as_int stuff_sack.Spec.FromYaml.get_text
    stuff_sack.Spec.FromYaml.positive stuff_sack.Spec.FromYaml.sized_array
    stuff_sack.Spec.FromYaml.counted_array stuff_sack.Spec.FromYaml.array_from_yaml
    stuff_sack.Spec.FromYaml.bits_from_yaml stuff_sack.Spec.FromYaml.is_null
    stuff_sack.Spec.FromYaml.value_from_yaml stuff_sack.Spec.FromYaml.type_from_yaml
    stuff_sack.Spec.FromYaml.get_tag stuff_sack.Spec.FromYaml.alias_from_yaml
    stuff_sack.Spec.FromYaml.field_from_yaml stuff_sack.Spec.FromYaml.bitfield_loop
    stuff_sack.Spec.FromYaml.enum_loop stuff_sack.Spec.FromYaml.struct_loop
    stuff_sack.Spec.FromYaml.subscript stuff_sack.Spec.FromYaml.get_array
    stuff_sack.Spec.FromYaml.bitfield_from_yaml stuff_sack.Spec.FromYaml.enum_from_yaml
    stuff_sack.Spec.FromYaml.struct_from_yaml stuff_sack.Spec.FromYaml.message_from_yaml
    stuff_sack.Spec.FromYaml.dispatch stuff_sack.Spec.FromYaml.describes
    stuff_sack.Spec.FromYaml.from_yaml stuff_sack.Spec.Parse.new_primitives
    stuff_sack.Spec.Parse.reset_types stuff_sack.Spec.Parse.types_loop
    stuff_sack.Spec.Parse.check_against stuff_sack.Spec.Parse.check_collisions
    stuff_sack.Types.append_field stuff_sack.Types.field_names stuff_sack.Types.root_type
    stuff_sack.Types.all_lengths stuff_sack.Types.bracketed stuff_sack.Types.root_name
    stuff_sack.Types.type_name stuff_sack.Types.packed_size stuff_sack.Types.fields_size
    stuff_sack.Types.uid stuff_sack.Types.field_uids stuff_sack.Types.is_message
    stuff_sack.Types.Sizes.first_at_least stuff_sack.Types.Sizes.bytes_for_bits
    stuff_sack.Types.Sizes.bit_length_loop stuff_sack.Types.Sizes.bit_length
    stuff_sack.Types.Sizes.bytes_for_value stuff_sack.Prelude.Text.same
    stuff_sack.Prelude.Text.contains stuff_sack.Hash.Crc.crc_round stuff_sack.Hash.Crc.crc_rounds
    stuff_sack.Hash.Crc.crc_table stuff_sack.Hash.Crc.crc_step stuff_sack.Hash.Crc.crc_loop
    stuff_sack.Hash.Crc.get_crc32 stuff_sack.Hash.Uid.decimal_loop stuff_sack.Hash.Uid.decimal
    stuff_sack.Hash.Uid.int_text stuff_sack.Hash.Uid.utf8 stuff_sack.Hash.Uid.c_string
    stuff_sack.Hash.Uid.name_bytes stuff_sack.Hash.Uid.append_uids
    stuff_sack.Hash.Uid.named_int_hash stuff_sack.Hash.Uid.array_hash
    stuff_sack.Hash.Uid.struct_field_hash stuff_sack.Hash.Uid.named_list_hash parse_yaml
sample-parsed = refl

parse_yaml-IsParsed_example : IsParsed sample sample_types builtins
parse_yaml-IsParsed_example =
    parse_yaml-IsParsed sample none (record { all_types = builtins; alias_tag = none }) sample_types
      sample-parsed

flag_items : Items
flag_items = pair (codes "a") (int (pos 3)) ▸ pair (codes "b") (int (pos 9)) ▸ Items.nil

flag_fields : List BitfieldField
flag_fields =
    record { name = codes "a"; bits = 3; description = none }
    ∷ record { name = codes "b"; bits = 9; description = none }
    ∷ []

flags-looped : bitfield_loop (codes "Flags") [] 1 flag_items ≡ ok (flag_fields, 2)
unfolding flag_items flag_fields bitfield_loop stuff_sack.Yaml.is_str stuff_sack.Yaml.is_dict
    stuff_sack.Yaml.is_text stuff_sack.Yaml.get stuff_sack.Yaml.listed
    stuff_sack.Yaml.check_required stuff_sack.Yaml.check_known stuff_sack.Yaml.check_map
    stuff_sack.Yaml.is_meta stuff_sack.Yaml.get_from_map_with_meta stuff_sack.Yaml.check_metadata
    stuff_sack.Yaml.check_entries stuff_sack.Yaml.check_map_with_meta stuff_sack.Yaml.check_array
    stuff_sack.Spec.Build.find stuff_sack.Spec.Build.get_type stuff_sack.Spec.Build.check_new
    stuff_sack.Spec.Build.total_bits stuff_sack.Spec.Build.add_bits stuff_sack.Spec.Build.add_value
    stuff_sack.Spec.Build.add_field stuff_sack.Spec.Build.new_primitive
    stuff_sack.Spec.Build.builtin_field stuff_sack.Spec.Build.message_fields
    stuff_sack.Spec.Build.new_header stuff_sack.Spec.FromYaml.as_int
    stuff_sack.Spec.FromYaml.get_text stuff_sack.Spec.FromYaml.positive
    stuff_sack.Spec.FromYaml.sized_array stuff_sack.Spec.FromYaml.counted_array
    stuff_sack.Spec.FromYaml.array_from_yaml stuff_sack.Spec.FromYaml.bits_from_yaml
    stuff_sack.Spec.FromYaml.is_null stuff_sack.Spec.FromYaml.value_from_yaml
    stuff_sack.Spec.FromYaml.type_from_yaml stuff_sack.Spec.FromYaml.get_tag
    stuff_sack.Spec.FromYaml.alias_from_yaml stuff_sack.Spec.FromYaml.field_from_yaml
    stuff_sack.Spec.FromYaml.struct_loop stuff_sack.Spec.FromYaml.subscript
    stuff_sack.Spec.FromYaml.get_array stuff_sack.Spec.FromYaml.bitfield_from_yaml
    stuff_sack.Spec.FromYaml.enum_from_yaml stuff_sack.Spec.FromYaml.struct_from_yaml
    stuff_sack.Spec.FromYaml.message_from_yaml stuff_sack.Spec.FromYaml.dispatch
    stuff_sack.Spec.FromYaml.describes stuff_sack.Spec.FromYaml.from_yaml
    stuff_sack.Types.Sizes.first_at_least stuff_sack.Types.Sizes.bytes_for_bits
    stuff_sack.Types.Sizes.bit_length_loop stuff_sack.Types.Sizes.bit_length
    stuff_sack.Types.Sizes.bytes_for_value stuff_sack.Prelude.Text.same
    stuff_sack.Prelude.Text.contains
flags-looped = refl

no_bits-IsBitfield : IsBitfield [] 1
unfolding total_bits
no_bits-IsBitfield = record {
  positive = tt;
  distinct = tt;
  size = record { word = inl refl; fits = omega arith; least = inl refl };
}

bitfield_loop-IsBitfield_example : IsBitfield flag_fields 2
bitfield_loop-IsBitfield_example =
    bitfield_loop-IsBitfield (codes "Flags") [] flag_fields 1 2 flag_items no_bits-IsBitfield
      flags-looped

value_items : Items
value_items = pair (codes "Off") null ▸ pair (codes "On") null ▸ Items.nil

enum_values : List EnumValue
enum_values =
    record { name = codes "Off"; description = none; value = 0 }
    ∷ record { name = codes "On"; description = none; value = 1 }
    ∷ []

values-looped : enum_loop (codes "Mode") [] 1 value_items ≡ ok (enum_values, 1)
unfolding value_items enum_values enum_loop stuff_sack.Yaml.is_str stuff_sack.Yaml.is_dict
    stuff_sack.Yaml.is_text stuff_sack.Yaml.get stuff_sack.Yaml.listed
    stuff_sack.Yaml.check_required stuff_sack.Yaml.check_known stuff_sack.Yaml.check_map
    stuff_sack.Yaml.is_meta stuff_sack.Yaml.get_from_map_with_meta stuff_sack.Yaml.check_metadata
    stuff_sack.Yaml.check_entries stuff_sack.Yaml.check_map_with_meta stuff_sack.Yaml.check_array
    stuff_sack.Spec.Build.find stuff_sack.Spec.Build.get_type stuff_sack.Spec.Build.check_new
    stuff_sack.Spec.Build.total_bits stuff_sack.Spec.Build.add_bits stuff_sack.Spec.Build.add_value
    stuff_sack.Spec.Build.add_field stuff_sack.Spec.Build.new_primitive
    stuff_sack.Spec.Build.builtin_field stuff_sack.Spec.Build.message_fields
    stuff_sack.Spec.Build.new_header stuff_sack.Spec.FromYaml.as_int
    stuff_sack.Spec.FromYaml.get_text stuff_sack.Spec.FromYaml.positive
    stuff_sack.Spec.FromYaml.sized_array stuff_sack.Spec.FromYaml.counted_array
    stuff_sack.Spec.FromYaml.array_from_yaml stuff_sack.Spec.FromYaml.bits_from_yaml
    stuff_sack.Spec.FromYaml.is_null stuff_sack.Spec.FromYaml.value_from_yaml
    stuff_sack.Spec.FromYaml.type_from_yaml stuff_sack.Spec.FromYaml.get_tag
    stuff_sack.Spec.FromYaml.alias_from_yaml stuff_sack.Spec.FromYaml.field_from_yaml
    stuff_sack.Spec.FromYaml.struct_loop stuff_sack.Spec.FromYaml.subscript
    stuff_sack.Spec.FromYaml.get_array stuff_sack.Spec.FromYaml.bitfield_from_yaml
    stuff_sack.Spec.FromYaml.enum_from_yaml stuff_sack.Spec.FromYaml.struct_from_yaml
    stuff_sack.Spec.FromYaml.message_from_yaml stuff_sack.Spec.FromYaml.dispatch
    stuff_sack.Spec.FromYaml.describes stuff_sack.Spec.FromYaml.from_yaml
    stuff_sack.Types.Sizes.first_at_least stuff_sack.Types.Sizes.bytes_for_bits
    stuff_sack.Types.Sizes.bit_length_loop stuff_sack.Types.Sizes.bit_length
    stuff_sack.Types.Sizes.bytes_for_value stuff_sack.Prelude.Text.same
    stuff_sack.Prelude.Text.contains
values-looped = refl

no_values-IsEnum : IsEnum [] 1
no_values-IsEnum = record {
  numbered = tt;
  distinct = tt;
  size = record { word = inl refl; fits = omega arith; least = inl refl };
}

enum_loop-IsEnum_example : IsEnum enum_values 1
enum_loop-IsEnum_example =
    enum_loop-IsEnum (codes "Mode") [] enum_values 1 1 value_items no_values-IsEnum values-looped
