-- ===== src/Cc/Tests.antt =====
-- The generated C++ file of the sample specification.
use stuff_sack.Prelude.{
  ℕ, ◌≡◌, ◌↔◌, ◌≤◌, Bool, true, false, Option, none, some, refl, List, [], ◌∷◌, ◌++◌, length,
  get_elem?, arith,
}
use stuff_sack.Prelude.Text.{Text, codes, same}
use stuff_sack.Errors.{Result, ok, err}
use stuff_sack.Types.{SsType, Fields, nil, field, message, packed_size, uid, root_name}
use stuff_sack.Names.{pack_function_name}
use stuff_sack.Spec.Build.{find}
use stuff_sack.Spec.WellFormed.{header_type}
use stuff_sack.Spec.Tests.{
  sample, sample_types, sample-parsed, builtins, header_info, mode, track, beat,
}
use stuff_sack.C.Syntax
use stuff_sack.C.Memory.{Value, word, items, block, stop, more, Members, last, member, ◌>>=◌}
use stuff_sack.C.Run
use stuff_sack.C.Run.{call_function}
use stuff_sack.C.Run.Functions.{stamped_members}
use stuff_sack.C.Unpack
use stuff_sack.C.Unpack.Run.{Env, load}
use stuff_sack.C.Unpack.Spec.{header_value}
use stuff_sack.C.Inspect.{inspect_header}
use stuff_sack.C.Tests.{
  functions, functions-Distinct, sample-IsSupported, sample-functions, point_value,
}
use stuff_sack.Cc.{Methods, message_methods, cc_source}
use stuff_sack.Cc.Run.{
  Status, k_success, k_invalid_uid, k_invalid_len, AnyMessage, monostate, held, Class,
  unpack_method, unpack_message, pack_method,
}
use stuff_sack.Cc.Dispatch.{dispatch}
use stuff_sack.Cc.Received.{unpack_message-success_iff}
use stuff_sack.Cc.Registered.{registered, calls_for, dispatch-registered}
use stuff_sack.Cc.Wire.{pack_method-as_c}

abbrev source_of :
    Result (List (Text × Syntax.Function) × List (Text × Unpack.Function))
    → List (Text × Syntax.Function) × List (Text × Unpack.Function)
source_of (ok s) = s
source_of (err e) = ([], [])

unfoldable is_ok : Result (List (Text × Syntax.Function) × List (Text × Unpack.Function)) → Bool
is_ok (ok s) = true
is_ok (err e) = false

source_of-ok :
    (r : Result (List (Text × Syntax.Function) × List (Text × Unpack.Function)))
    → is_ok r ≡ true
    → r ≡ ok (source_of r)
unfolding is_ok
source_of-ok (ok s) h = refl
source_of-ok (err e) h = absurd (ground arith)

unfoldable source : List (Text × Syntax.Function) × List (Text × Unpack.Function)
unfolding cc_source
source = source_of (cc_source sample_types)

sample-source : cc_source sample_types ≡ ok (source.0, source.1)
unfolding source is_ok stuff_sack.Types.append_field stuff_sack.Types.field_names
    stuff_sack.Types.root_type stuff_sack.Types.all_lengths stuff_sack.Types.bracketed
    stuff_sack.Types.root_name stuff_sack.Types.type_name stuff_sack.Types.packed_size
    stuff_sack.Types.fields_size stuff_sack.Types.uid stuff_sack.Types.field_uids
    stuff_sack.Types.is_message stuff_sack.Names.is_upper stuff_sack.Names.is_lower
    stuff_sack.Names.to_lower stuff_sack.Names.to_upper stuff_sack.Names.lstrip
    stuff_sack.Names.snake stuff_sack.Names.camel_to_snake stuff_sack.Names.split
    stuff_sack.Names.capitalise stuff_sack.Names.join stuff_sack.Names.snake_to_camel
    stuff_sack.Names.c_type_name stuff_sack.Names.c_full_type_name stuff_sack.Names.c_field_name
    stuff_sack.Names.pack_function_name stuff_sack.Names.unpack_function_name
    stuff_sack.Names.log_function_name stuff_sack.Names.packed_size_name
    stuff_sack.Names.bitfield_c_type stuff_sack.C.Generate.shifts_from stuff_sack.C.Generate.shifts
    stuff_sack.C.Generate.array_pack stuff_sack.C.Generate.is_aliased
    stuff_sack.C.Generate.alias_locals stuff_sack.C.Generate.field_pack
    stuff_sack.C.Generate.fields_pack stuff_sack.C.Generate.struct_pack_body
    stuff_sack.C.Generate.primitive_pack stuff_sack.C.Generate.enum_pack stuff_sack.C.Generate.pack
    stuff_sack.C.Unpack.array_unpack stuff_sack.C.Unpack.alias_copies
    stuff_sack.C.Unpack.field_unpack stuff_sack.C.Unpack.fields_unpack
    stuff_sack.C.Unpack.struct_unpack_body stuff_sack.C.Unpack.primitive_unpack
    stuff_sack.C.Unpack.enum_unpack stuff_sack.C.Unpack.header_function
    stuff_sack.C.Unpack.message_unpack stuff_sack.C.Unpack.unpack stuff_sack.Hash.Uid.decimal_loop
    stuff_sack.Hash.Uid.decimal stuff_sack.Hash.Uid.int_text stuff_sack.Hash.Uid.utf8
    stuff_sack.Hash.Uid.c_string stuff_sack.Hash.Uid.name_bytes stuff_sack.Hash.Uid.append_uids
    stuff_sack.Hash.Uid.named_int_hash stuff_sack.Hash.Uid.array_hash
    stuff_sack.Hash.Uid.struct_field_hash stuff_sack.Hash.Uid.named_list_hash
    stuff_sack.Hash.Crc.crc_round stuff_sack.Hash.Crc.crc_rounds stuff_sack.Hash.Crc.crc_table
    stuff_sack.Hash.Crc.crc_step stuff_sack.Hash.Crc.crc_loop stuff_sack.Hash.Crc.get_crc32
    stuff_sack.Prelude.Text.same stuff_sack.Prelude.Text.contains stuff_sack.Cc.packing_functions
    stuff_sack.Cc.message_methods stuff_sack.Cc.cc_source
sample-source = source_of-ok (cc_source sample_types) refl

abbrev methods_of : SsType → Text → Methods
methods_of t name = record {
  pack_function = codes "SsPack" ++ name;
  header_unpack = codes "SsUnpackSsHeader";
  unpack_function = codes "SsUnpack" ++ name;
  k_uid = uid t;
  k_packed_size = packed_size t;
}

abbrev blank_track : Members
blank_track = member (codes "ss_header") (header_value 0 0) (
    member (codes "points") (items (more (point_value 0 0) (more (point_value 0 0) stop)))
      (member (codes "flags") (word 0) last))

abbrev blank_beat : Members
blank_beat = member (codes "ss_header") (header_value 0 0) (member (codes "mode") (word 0) last)

abbrev classes : List Class
classes =
    record { type = track; methods = methods_of track (codes "Track"); blank = blank_track }
    ∷ record { type = beat; methods = methods_of beat (codes "Beat"); blank = blank_beat }
    ∷ []

abbrev beat_message : ℕ → Value
beat_message mode = block (
    member (codes "ss_header") (header_value (uid beat) 7) (member (codes "mode") (word mode) last))

abbrev beat_bytes : List ℕ
beat_bytes = 120 ∷ 32 ∷ 2 ∷ 115 ∷ 0 ∷ 7 ∷ 1 ∷ []

-- The beat is the message at place 1.
beat-received :
    unpack_message (load source.1 []) sample_types classes (header_value 9 9) beat_bytes 7
    ≡ some (held 1 (beat_message 1), k_success)
unfolding source is_ok stuff_sack.Types.append_field stuff_sack.Types.field_names
    stuff_sack.Types.root_type stuff_sack.Types.all_lengths stuff_sack.Types.bracketed
    stuff_sack.Types.root_name stuff_sack.Types.type_name stuff_sack.Types.packed_size
    stuff_sack.Types.fields_size stuff_sack.Types.uid stuff_sack.Types.field_uids
    stuff_sack.Types.is_message stuff_sack.Names.is_upper stuff_sack.Names.is_lower
    stuff_sack.Names.to_lower stuff_sack.Names.to_upper stuff_sack.Names.lstrip
    stuff_sack.Names.snake stuff_sack.Names.camel_to_snake stuff_sack.Names.split
    stuff_sack.Names.capitalise stuff_sack.Names.join stuff_sack.Names.snake_to_camel
    stuff_sack.Names.c_type_name stuff_sack.Names.c_full_type_name stuff_sack.Names.c_field_name
    stuff_sack.Names.pack_function_name stuff_sack.Names.unpack_function_name
    stuff_sack.Names.log_function_name stuff_sack.Names.packed_size_name
    stuff_sack.Names.bitfield_c_type stuff_sack.C.Generate.shifts_from stuff_sack.C.Generate.shifts
    stuff_sack.C.Generate.array_pack stuff_sack.C.Generate.is_aliased
    stuff_sack.C.Generate.alias_locals stuff_sack.C.Generate.field_pack
    stuff_sack.C.Generate.fields_pack stuff_sack.C.Generate.struct_pack_body
    stuff_sack.C.Generate.primitive_pack stuff_sack.C.Generate.enum_pack stuff_sack.C.Generate.pack
    stuff_sack.C.Unpack.array_unpack stuff_sack.C.Unpack.alias_copies
    stuff_sack.C.Unpack.field_unpack stuff_sack.C.Unpack.fields_unpack
    stuff_sack.C.Unpack.struct_unpack_body stuff_sack.C.Unpack.primitive_unpack
    stuff_sack.C.Unpack.enum_unpack stuff_sack.C.Unpack.header_function
    stuff_sack.C.Unpack.message_unpack stuff_sack.C.Unpack.unpack stuff_sack.Hash.Uid.decimal_loop
    stuff_sack.Hash.Uid.decimal stuff_sack.Hash.Uid.int_text stuff_sack.Hash.Uid.utf8
    stuff_sack.Hash.Uid.c_string stuff_sack.Hash.Uid.name_bytes stuff_sack.Hash.Uid.append_uids
    stuff_sack.Hash.Uid.named_int_hash stuff_sack.Hash.Uid.array_hash
    stuff_sack.Hash.Uid.struct_field_hash stuff_sack.Hash.Uid.named_list_hash
    stuff_sack.Hash.Crc.crc_round stuff_sack.Hash.Crc.crc_rounds stuff_sack.Hash.Crc.crc_table
    stuff_sack.Hash.Crc.crc_step stuff_sack.Hash.Crc.crc_loop stuff_sack.Hash.Crc.get_crc32
    stuff_sack.Prelude.Text.same stuff_sack.Prelude.Text.contains stuff_sack.Cc.packing_functions
    stuff_sack.Cc.message_methods stuff_sack.Cc.cc_source stuff_sack.C.Memory.get_member
    stuff_sack.C.Memory.set_member stuff_sack.C.Memory.get_index stuff_sack.C.Memory.count
    stuff_sack.C.Memory.get_var stuff_sack.C.Memory.index_all stuff_sack.C.Memory.int_value
    stuff_sack.C.Memory.eval_offset stuff_sack.C.Memory.store stuff_sack.C.Memory.convert
    stuff_sack.C.Unpack.Run.get_function stuff_sack.C.Unpack.Run.set_index
    stuff_sack.C.Unpack.Run.set_index_all stuff_sack.C.Unpack.Run.read stuff_sack.C.Unpack.Run.write
    stuff_sack.C.Unpack.Run.repeat stuff_sack.C.Unpack.Run.exec stuff_sack.C.Unpack.Run.exec_all
    stuff_sack.C.Unpack.Run.declare_locals stuff_sack.C.Unpack.Run.copy_back
    stuff_sack.C.Unpack.Run.run_body stuff_sack.C.Unpack.Run.load_bytes
    stuff_sack.C.Unpack.Run.get_word stuff_sack.C.Unpack.Run.get_block
    stuff_sack.C.Unpack.Run.header_word stuff_sack.C.Unpack.Run.check_header
    stuff_sack.C.Unpack.Run.run_function stuff_sack.C.Unpack.Run.program
    stuff_sack.C.Unpack.Run.load stuff_sack.C.Messages.messages stuff_sack.C.Messages.search_uids
    stuff_sack.C.Messages.get_ss_msg_type_from_uid stuff_sack.C.Inspect.inspect_header
    stuff_sack.Cc.Run.pack_method stuff_sack.Cc.Run.pack_new stuff_sack.Cc.Run.check_unpack
    stuff_sack.Cc.Run.unpack_method stuff_sack.Cc.Run.zero_value stuff_sack.Cc.Run.zero_members
    stuff_sack.Cc.Run.fresh stuff_sack.Cc.Run.unpack_new stuff_sack.Cc.Run.unpack_branches
    stuff_sack.Cc.Run.unpack_message stuff_sack.Cc.Dispatch.add_callback
    stuff_sack.Cc.Dispatch.callbacks stuff_sack.Cc.Dispatch.visit stuff_sack.Cc.Dispatch.dispatch
beat-received = refl

-- A byte less is too short, and another unique id is unknown.
beat-refused :
    (unpack_message (load source.1 []) sample_types classes (header_value 9 9) beat_bytes 6
      ≡ some (monostate, k_invalid_len))
    × (unpack_message (load source.1 []) sample_types classes (header_value 9 9) (7 ∷ beat_bytes) 8
        ≡ some (monostate, k_invalid_uid))
unfolding source is_ok stuff_sack.Types.append_field stuff_sack.Types.field_names
    stuff_sack.Types.root_type stuff_sack.Types.all_lengths stuff_sack.Types.bracketed
    stuff_sack.Types.root_name stuff_sack.Types.type_name stuff_sack.Types.packed_size
    stuff_sack.Types.fields_size stuff_sack.Types.uid stuff_sack.Types.field_uids
    stuff_sack.Types.is_message stuff_sack.Names.is_upper stuff_sack.Names.is_lower
    stuff_sack.Names.to_lower stuff_sack.Names.to_upper stuff_sack.Names.lstrip
    stuff_sack.Names.snake stuff_sack.Names.camel_to_snake stuff_sack.Names.split
    stuff_sack.Names.capitalise stuff_sack.Names.join stuff_sack.Names.snake_to_camel
    stuff_sack.Names.c_type_name stuff_sack.Names.c_full_type_name stuff_sack.Names.c_field_name
    stuff_sack.Names.pack_function_name stuff_sack.Names.unpack_function_name
    stuff_sack.Names.log_function_name stuff_sack.Names.packed_size_name
    stuff_sack.Names.bitfield_c_type stuff_sack.C.Generate.shifts_from stuff_sack.C.Generate.shifts
    stuff_sack.C.Generate.array_pack stuff_sack.C.Generate.is_aliased
    stuff_sack.C.Generate.alias_locals stuff_sack.C.Generate.field_pack
    stuff_sack.C.Generate.fields_pack stuff_sack.C.Generate.struct_pack_body
    stuff_sack.C.Generate.primitive_pack stuff_sack.C.Generate.enum_pack stuff_sack.C.Generate.pack
    stuff_sack.C.Unpack.array_unpack stuff_sack.C.Unpack.alias_copies
    stuff_sack.C.Unpack.field_unpack stuff_sack.C.Unpack.fields_unpack
    stuff_sack.C.Unpack.struct_unpack_body stuff_sack.C.Unpack.primitive_unpack
    stuff_sack.C.Unpack.enum_unpack stuff_sack.C.Unpack.header_function
    stuff_sack.C.Unpack.message_unpack stuff_sack.C.Unpack.unpack stuff_sack.Hash.Uid.decimal_loop
    stuff_sack.Hash.Uid.decimal stuff_sack.Hash.Uid.int_text stuff_sack.Hash.Uid.utf8
    stuff_sack.Hash.Uid.c_string stuff_sack.Hash.Uid.name_bytes stuff_sack.Hash.Uid.append_uids
    stuff_sack.Hash.Uid.named_int_hash stuff_sack.Hash.Uid.array_hash
    stuff_sack.Hash.Uid.struct_field_hash stuff_sack.Hash.Uid.named_list_hash
    stuff_sack.Hash.Crc.crc_round stuff_sack.Hash.Crc.crc_rounds stuff_sack.Hash.Crc.crc_table
    stuff_sack.Hash.Crc.crc_step stuff_sack.Hash.Crc.crc_loop stuff_sack.Hash.Crc.get_crc32
    stuff_sack.Prelude.Text.same stuff_sack.Prelude.Text.contains stuff_sack.Cc.packing_functions
    stuff_sack.Cc.message_methods stuff_sack.Cc.cc_source stuff_sack.C.Memory.get_member
    stuff_sack.C.Memory.set_member stuff_sack.C.Memory.get_index stuff_sack.C.Memory.count
    stuff_sack.C.Memory.get_var stuff_sack.C.Memory.index_all stuff_sack.C.Memory.int_value
    stuff_sack.C.Memory.eval_offset stuff_sack.C.Memory.store stuff_sack.C.Memory.convert
    stuff_sack.C.Unpack.Run.get_function stuff_sack.C.Unpack.Run.set_index
    stuff_sack.C.Unpack.Run.set_index_all stuff_sack.C.Unpack.Run.read stuff_sack.C.Unpack.Run.write
    stuff_sack.C.Unpack.Run.repeat stuff_sack.C.Unpack.Run.exec stuff_sack.C.Unpack.Run.exec_all
    stuff_sack.C.Unpack.Run.declare_locals stuff_sack.C.Unpack.Run.copy_back
    stuff_sack.C.Unpack.Run.run_body stuff_sack.C.Unpack.Run.load_bytes
    stuff_sack.C.Unpack.Run.get_word stuff_sack.C.Unpack.Run.get_block
    stuff_sack.C.Unpack.Run.header_word stuff_sack.C.Unpack.Run.check_header
    stuff_sack.C.Unpack.Run.run_function stuff_sack.C.Unpack.Run.program
    stuff_sack.C.Unpack.Run.load stuff_sack.C.Messages.messages stuff_sack.C.Messages.search_uids
    stuff_sack.C.Messages.get_ss_msg_type_from_uid stuff_sack.C.Inspect.inspect_header
    stuff_sack.Cc.Run.pack_method stuff_sack.Cc.Run.pack_new stuff_sack.Cc.Run.check_unpack
    stuff_sack.Cc.Run.unpack_method stuff_sack.Cc.Run.zero_value stuff_sack.Cc.Run.zero_members
    stuff_sack.Cc.Run.fresh stuff_sack.Cc.Run.unpack_new stuff_sack.Cc.Run.unpack_branches
    stuff_sack.Cc.Run.unpack_message stuff_sack.Cc.Dispatch.add_callback
    stuff_sack.Cc.Dispatch.callbacks stuff_sack.Cc.Dispatch.visit stuff_sack.Cc.Dispatch.dispatch
beat-refused = (refl, refl)

unpack_message-success_iff_example :
    (unpack_message (load source.1 []) sample_types classes (header_value 9 9) beat_bytes 7
      ≡ some (held 1 (beat_message 1), k_success))
    ↔ ((6 ≤ 7)
        × (c : Class) × (inspect_header
              (load source.1 [])
              sample_types
              (header_value 9 9)
              beat_bytes
              0
            ≡ some 1)
        × (get_elem? classes 1 ≡ some c)
        × (7 ≡ c.methods.k_packed_size)
        × (unpack_method (load source.1 []) c.methods beat_bytes 0 c.blank
            ≡ some (k_success, beat_message 1)))
unpack_message-success_iff_example =
    unpack_message-success_iff (load source.1 []) sample_types classes (header_value 9 9) beat_bytes
      7 1 (beat_message 1)

abbrev added : List (ℕ × ℕ)
added = (1, 5) ∷ (0, 6) ∷ (1, 4) ∷ []

dispatch-registered_example :
    dispatch
      (load source.1 [])
      sample_types
      classes
      (header_value 9 9)
      (registered (length classes) added)
      beat_bytes
      7
    ≡ some (k_success, calls_for added (held 1 (beat_message 1), k_success))
dispatch-registered_example =
    dispatch-registered (load source.1 []) sample_types classes (header_value 9 9) added beat_bytes
      7 (held 1 (beat_message 1), k_success) beat-received

calls-beat :
    calls_for added (held 1 (beat_message 1), k_success)
    ≡ (4, beat_message 1) ∷ (5, beat_message 1) ∷ []
unfolding calls_for stuff_sack.Cc.Registered.added_for
calls-beat = refl

beat-found : find (codes "Beat") sample_types ≡ some beat
unfolding find root_name same
beat-found = refl

abbrev beat_fields : Fields
beat_fields = field (codes "mode") mode none none nil

beat-methods :
    message_methods beat (field (codes "ss_header") header_type (some header_info) none beat_fields)
    ≡ ok (methods_of beat (codes "Beat"))
unfolding stuff_sack.Types.append_field stuff_sack.Types.field_names stuff_sack.Types.root_type
    stuff_sack.Types.all_lengths stuff_sack.Types.bracketed stuff_sack.Types.root_name
    stuff_sack.Types.type_name stuff_sack.Types.packed_size stuff_sack.Types.fields_size
    stuff_sack.Types.uid stuff_sack.Types.field_uids stuff_sack.Types.is_message
    stuff_sack.Names.is_upper stuff_sack.Names.is_lower stuff_sack.Names.to_lower
    stuff_sack.Names.to_upper stuff_sack.Names.lstrip stuff_sack.Names.snake
    stuff_sack.Names.camel_to_snake stuff_sack.Names.split stuff_sack.Names.capitalise
    stuff_sack.Names.join stuff_sack.Names.snake_to_camel stuff_sack.Names.c_type_name
    stuff_sack.Names.c_full_type_name stuff_sack.Names.c_field_name
    stuff_sack.Names.pack_function_name stuff_sack.Names.unpack_function_name
    stuff_sack.Names.log_function_name stuff_sack.Names.packed_size_name
    stuff_sack.Names.bitfield_c_type stuff_sack.C.Generate.shifts_from stuff_sack.C.Generate.shifts
    stuff_sack.C.Generate.array_pack stuff_sack.C.Generate.is_aliased
    stuff_sack.C.Generate.alias_locals stuff_sack.C.Generate.field_pack
    stuff_sack.C.Generate.fields_pack stuff_sack.C.Generate.struct_pack_body
    stuff_sack.C.Generate.primitive_pack stuff_sack.C.Generate.enum_pack stuff_sack.C.Generate.pack
    stuff_sack.C.Unpack.array_unpack stuff_sack.C.Unpack.alias_copies
    stuff_sack.C.Unpack.field_unpack stuff_sack.C.Unpack.fields_unpack
    stuff_sack.C.Unpack.struct_unpack_body stuff_sack.C.Unpack.primitive_unpack
    stuff_sack.C.Unpack.enum_unpack stuff_sack.C.Unpack.header_function
    stuff_sack.C.Unpack.message_unpack stuff_sack.C.Unpack.unpack stuff_sack.Hash.Uid.decimal_loop
    stuff_sack.Hash.Uid.decimal stuff_sack.Hash.Uid.int_text stuff_sack.Hash.Uid.utf8
    stuff_sack.Hash.Uid.c_string stuff_sack.Hash.Uid.name_bytes stuff_sack.Hash.Uid.append_uids
    stuff_sack.Hash.Uid.named_int_hash stuff_sack.Hash.Uid.array_hash
    stuff_sack.Hash.Uid.struct_field_hash stuff_sack.Hash.Uid.named_list_hash
    stuff_sack.Hash.Crc.crc_round stuff_sack.Hash.Crc.crc_rounds stuff_sack.Hash.Crc.crc_table
    stuff_sack.Hash.Crc.crc_step stuff_sack.Hash.Crc.crc_loop stuff_sack.Hash.Crc.get_crc32
    stuff_sack.Prelude.Text.same stuff_sack.Prelude.Text.contains stuff_sack.Cc.packing_functions
    stuff_sack.Cc.message_methods stuff_sack.Cc.cc_source
beat-methods = refl

beat-size : 7 ≡ packed_size beat
unfolding packed_size
beat-size = refl

abbrev room : List ℕ
room = 0 ∷ 0 ∷ 0 ∷ 0 ∷ 0 ∷ 0 ∷ 0 ∷ []

pack_method-as_c_example :
    pack_method
      (Run.load source.0 [])
      (methods_of beat (codes "Beat"))
      (member (codes "ss_header") (header_value 3 4) (member (codes "mode") (word 1) last))
      1
      ((9 ∷ []) ++ (room ++ 8 ∷ []))
    ≡ (call_function
          (Run.load functions [])
          (pack_function_name beat)
          (block
            (member (codes "ss_header") (header_value 3 4) (member (codes "mode") (word 1) last)))
          1
          ((9 ∷ []) ++ (room ++ 8 ∷ []))
        >>= λ buf. some (
          buf,
          stamped_members (uid beat) (packed_size beat) (member (codes "mode") (word 1) last),
        ))
pack_method-as_c_example =
    pack_method-as_c sample none sample_types (record { all_types = builtins; alias_tag = none })
      functions source.0 source.1 sample-parsed functions-Distinct sample-IsSupported
      sample-functions sample-source (codes "Beat") none (some header_info) beat_fields
      (methods_of beat (codes "Beat")) (header_value 3 4) (member (codes "mode") (word 1) last)
      (9 ∷ []) room (8 ∷ []) beat-found beat-methods (refl, omega arith, (refl, omega arith, tt))
      (refl, omega arith, tt) ((omega arith, omega arith), tt) beat-size
