-- ===== src/Py/Tests.antt =====
-- A small enum, and a message class over a stub of the C library.
use stuff_sack.Prelude.{
  ℕ, zero, suc, ap, ◌≡◌, ◌<◌, ◌++◌, ◌↔◌, inl, refl, true, false, List, [], ◌∷◌, none, some, arith,
  length, get_elem?,
}
use stuff_sack.Prelude.Text.{codes, contains, same}
use stuff_sack.Prelude.Int.{ℤ, pos, negsuc}
use stuff_sack.Types.{SsType, EnumValue, packed_size}
use stuff_sack.Spec.WellFormed.{IsEnum}
use stuff_sack.Types.{root_name}
use stuff_sack.Spec.Tests.{sample, sample_types, sample-parsed, builtins, track}
use stuff_sack.C.Memory.{Value, word, ◌>>=◌}
use stuff_sack.C.Run
use stuff_sack.C.Run.Spec.{encode}
use stuff_sack.C.Unpack.Run.{load}
use stuff_sack.C.Unpack.Spec.{received as received_value, header_value}
use stuff_sack.C.Tests.{
  functions, functions-Distinct, sample-IsSupported, sample-functions, track_value,
  track_value-HasType, track-found,
}
use stuff_sack.C.Tests.RoundTrip.{readers, sample-readers, sample-IsUnpackable, track-place}
use stuff_sack.C.Log.{delimiter}
use stuff_sack.C.Log.Write.{WriteFile, write_log_header}
use stuff_sack.Py.Logger.{null, live, Logger, WriteHeader, WriteMessage}
use stuff_sack.Py.Logger.Sessions.{Logged, log_func}
use stuff_sack.Py.Library.{library_inspect, msg_list, pack_message, unpack_message-packed}
use stuff_sack.Py.{
  value_of, enum_name, is_valid, contains_name, MessageClass, returned, unpack_message,
}
use stuff_sack.Py.Enums.{enum_class_lem}
use stuff_sack.Py.Messages.{unpack_message_iff}

abbrev modes : List EnumValue
modes =
    record { name = codes "Off"; description = none; value = 0 }
    ∷ record { name = codes "On"; description = none; value = 1 }
    ∷ []

modes-IsEnum : IsEnum modes 1
unfolding contains same
modes-IsEnum = record {
  numbered = (refl, (refl, tt));
  distinct = (refl, (refl, tt));
  size = record { word = inl refl; fits = omega arith; least = inl refl };
}

enum_class_lem_example :
    ((i : ℕ) (v : EnumValue)
      → get_elem? modes i ≡ some v
      → (enum_name (pos i) modes ≡ v.name)
        × (contains_name v.name modes ≡ true)
        × (value_of v.name modes ≡ some i))
    × ((n : ℕ) → (is_valid (pos n) modes ≡ true) ↔ (n < length modes))
    × ((n : ℕ) → is_valid (negsuc n) modes ≡ false)
enum_class_lem_example = enum_class_lem modes 1 modes-IsEnum

-- A class of messages of two bytes, which the stub unpacks to the first byte.
abbrev pair_class : MessageClass
pair_class = record { packed_size = 2; unpack_func = λ buf. (pos 0, word (first buf)) }
  where
    first : List ℕ → ℕ
    first [] = 0
    first (b ∷ bs) = b

abbrev inspect : List ℕ → ℤ
inspect buf = pos 0

abbrev received : List ℕ
received = 5 ∷ 6 ∷ []

unpack_message_iff_example :
    (unpack_message inspect (pair_class ∷ []) received ≡ returned (word 5)) ↔ (
      (i : ℕ) × (cls : MessageClass) × (inspect received ≡ pos i)
      × (get_elem? (pair_class ∷ []) i ≡ some cls)
      × (length received ≡ cls.packed_size)
      × ((cls.unpack_func received).0 ≡ pos 0)
      × ((cls.unpack_func received).1 ≡ word 5))
unpack_message_iff_example = unpack_message_iff inspect (pair_class ∷ []) received (word 5)

unpack_message-packed_example :
    (pack_message (Run.load functions []) track track_value >>= λ buf. some (
      unpack_message
        (library_inspect (load readers []) sample_types (header_value 3 4))
        (msg_list (load readers []) sample_types)
        buf))
    ≡ some (returned (received_value track track_value))
unfolding root_name
unpack_message-packed_example =
    unpack_message-packed sample none sample_types
      (record { all_types = builtins; alias_tag = none }) functions readers sample-parsed
      functions-Distinct sample-IsUnpackable sample-functions sample-readers (codes "Track") none _
      0 track_value (header_value 3 4) track-found track-place track_value-HasType
      (refl, omega arith, (refl, omega arith, tt))

-- A file to which every byte is written
abbrev write_all : WriteFile
write_all file data_bytes = (pos (length data_bytes), file ++ data_bytes)

abbrev bytes_of : ℕ → List ℕ
bytes_of zero = []
bytes_of (suc n) = 85 ∷ bytes_of n

length-bytes_of : (n : ℕ) → length (bytes_of n) ≡ n
length-bytes_of zero = refl
length-bytes_of (suc n) = ap suc (length-bytes_of n)

abbrev local_of : SsType → List ℕ
local_of t = bytes_of (packed_size t)

local_of-size : (t : SsType) → length (local_of t) ≡ packed_size t
local_of-size t = length-bytes_of (packed_size t)

abbrev write_header : WriteHeader
write_header = write_log_header write_all (codes "a: 1")

abbrev log_track : WriteMessage
log_track =
    log_func sample none sample_types (record { all_types = builtins; alias_tag = none }) functions
      write_all local_of sample-parsed functions-Distinct sample-IsSupported sample-functions
      (λ file data_bytes. refl) local_of-size

abbrev opened_log : Logger
opened_log = record { file_p = live; contents = codes "a: 1" ++ delimiter; leaked = false }

abbrev with_track : Logger
with_track = record opened_log { contents = opened_log.contents ++ encode track track_value }

abbrev session : Logger
session = record with_track { file_p = null }

abbrev session_messages : Logged
session_messages = (track, track_value) ∷ []
