-- ===== src/C/Tests/Enums.antt =====
-- The enums of the sample specification's header.
use stuff_sack.Prelude.{ℕ, ◌≡◌, refl, none, some, false, List, [], ◌∷◌, ◌++◌, map, get_elem?}
use stuff_sack.Prelude.Text.{codes, same}
use stuff_sack.Prelude.Int.{pos}
use stuff_sack.Errors.{ok}
use stuff_sack.Types.{EnumValue, SsType, enum, root_name}
use stuff_sack.Spec.Build.{value_names}
use stuff_sack.Spec.WellFormed.{IsEnum}
use stuff_sack.Spec.Tests.{builtins, track, beat}
use stuff_sack.C.Enums.{message_type_enum, enumerator, get_extra_enums, get_extra_enums-as_c}

abbrev types : List EnumValue
types =
    record { name = codes "Track"; description = none; value = 0 }
    ∷ record { name = codes "Beat"; description = none; value = 1 }
    ∷ record {
      name = codes "Unknown";
      description = some (codes "Unknown message type.");
      value = 2;
    }
    ∷ []

abbrev status : SsType
status =
    enum (codes "SsStatus") (some (codes "Stuff Sack status code."))
      (record { name = codes "Success"; description = some (codes "Success."); value = 0 }
        ∷ record {
          name = codes "InvalidUid";
          description = some (codes "Invalid message UID.");
          value = 1;
        }
        ∷ record {
          name = codes "InvalidLen";
          description = some (codes "Invalid message length.");
          value = 2;
        }
        ∷ [])
      1

sample-extra :
    get_extra_enums builtins (track ∷ beat ∷ [])
    ≡ ok (enum (codes "SsMsgType") (some (codes "Message types.")) types 1, status)
unfolding stuff_sack.Types.append_field stuff_sack.Types.field_names stuff_sack.Types.root_type
    stuff_sack.Types.all_lengths stuff_sack.Types.bracketed stuff_sack.Types.root_name
    stuff_sack.Types.type_name stuff_sack.Types.packed_size stuff_sack.Types.fields_size
    stuff_sack.Types.uid stuff_sack.Types.field_uids stuff_sack.Types.is_message
    stuff_sack.Types.Sizes.first_at_least stuff_sack.Types.Sizes.bytes_for_bits
    stuff_sack.Types.Sizes.bit_length_loop stuff_sack.Types.Sizes.bit_length
    stuff_sack.Types.Sizes.bytes_for_value stuff_sack.Spec.Build.find stuff_sack.Spec.Build.get_type
    stuff_sack.Spec.Build.check_new stuff_sack.Spec.Build.total_bits stuff_sack.Spec.Build.add_bits
    stuff_sack.Spec.Build.add_value stuff_sack.Spec.Build.add_field
    stuff_sack.Spec.Build.new_primitive stuff_sack.Spec.Build.builtin_field
    stuff_sack.Spec.Build.message_fields stuff_sack.Spec.Build.new_header
    stuff_sack.C.Enums.message_type_enum stuff_sack.C.Enums.description
    stuff_sack.C.Enums.message_values stuff_sack.C.Enums.get_extra_enums
    stuff_sack.C.Enums.enumerator stuff_sack.Prelude.Text.same stuff_sack.Prelude.Text.contains
    stuff_sack.C.Messages.messages stuff_sack.C.Messages.search_uids
    stuff_sack.C.Messages.get_ss_msg_type_from_uid
sample-extra = refl

get_extra_enums-as_c_example :
    IsEnum types 1
    × (value_names types ≡ map root_name (track ∷ beat ∷ []) ++ codes "Unknown" ∷ [])
    × ((i : ℕ) (v : EnumValue)
        → get_elem? types i ≡ some v
        → same (codes "ForceSigned") v.name ≡ false
        → enumerator (codes "kSsMsgType" ++ v.name) (message_type_enum (track ∷ beat ∷ []))
          ≡ some (pos v.value))
get_extra_enums-as_c_example =
    get_extra_enums-as_c builtins (track ∷ beat ∷ []) (codes "SsMsgType")
      (some (codes "Message types.")) types 1 status sample-extra
