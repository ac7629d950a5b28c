-- ===== src/Types/Tests.antt =====
-- Sizes, unique ids and wraps of small types.
use stuff_sack.Prelude.{◌+◌, ◌^◌, ◌<◌, ◌≡◌, ◌↔◌, true, [], ◌∷◌, some}
use stuff_sack.Prelude.Text.{codes}
use stuff_sack.Prelude.Int.{pos, negsuc}
use stuff_sack.Errors.{ok, err, value_error}
use stuff_sack.Types.{SsType, primitive, bitfield, array, packed_size, uid}
use stuff_sack.Types.Sizes.{bytes_for_bits, bytes_for_value}
use stuff_sack.Types.SizeLaws.{IsLeastSize, IsLeastSigned, bytes_for_bits_iff, bytes_for_value_iff}
use stuff_sack.Types.Uids.{uid-lt, bare, bare_lem, array-uid_wrap}

bytes_for_bits_iff_example :
    ((bytes_for_bits (pos 17) ≡ ok 4) ↔ IsLeastSize 17 4)
    × ((bytes_for_bits (pos 17) ≡ err value_error) ↔ (64 < 17))
    × (bytes_for_bits (negsuc 17) ≡ err value_error)
bytes_for_bits_iff_example = bytes_for_bits_iff 17 4

bytes_for_value_iff_example : (bytes_for_value (pos 200) true ≡ ok 2) ↔ IsLeastSigned 200 2
bytes_for_value_iff_example = bytes_for_value_iff 200 2

abbrev described : SsType
described =
    array
      (bitfield (codes "Flags") (some (codes "All flags."))
        (record { name = codes "a"; bits = 3; description = some (codes "The first.") } ∷ []) 1)
      4

uid-lt_example : uid described < 2 ^ 32
uid-lt_example = uid-lt described

bare_lem_example :
    (uid (bare described) ≡ uid described) × (packed_size (bare described) ≡ packed_size described)
bare_lem_example = bare_lem described

array-uid_wrap_example :
    uid (array (primitive (codes "uint8") 1) (3 + 2 ^ 32))
    ≡ uid (array (primitive (codes "uint8") 1) 3)
array-uid_wrap_example = array-uid_wrap (primitive (codes "uint8") 1) 3
