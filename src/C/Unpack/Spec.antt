-- ===== src/C/Unpack/Spec.antt =====
-- What an object holds after its bytes are unpacked, as a function of the object that was packed.
use stuff_sack.Prelude.{ℕ, ◌*◌}
use stuff_sack.Prelude.Text.{codes}
use stuff_sack.Types.{SsType, enum, struct, message, array, Fields, field, packed_size, uid}
use stuff_sack.C.Memory.{
  Value, word, items, block, Values, stop, more, Members, last, member, convert,
}

unfoldable pub map_values : (Value → Value) → Values → Values
map_values f stop = stop
map_values f (more v vs) = more (f v) (map_values f vs)

-- The header that a message is sent with
abbrev pub header_value : ℕ → ℕ → Value
header_value u len = block (member (codes "uid") (word u) (member (codes "len") (word len) last))

-- The object that comes back: an enum goes through an integer of its packed size, and the header of a
-- message is the one it was sent with.
unfoldable mutual
  unfolding map_values

  pub received : SsType → Value → Value
  received (enum n d vs b) (word w) = word (convert (b * 8) 32 (convert 32 (b * 8) w))
  received (struct n d fs) (block ms) = block (received_fields fs ms)
  received (message n d (field h t e a fs)) (block (member m v ms)) = block (
      member (codes "ss_header")
        (header_value (uid (message n d (field h t e a fs)))
          (packed_size (message n d (field h t e a fs))))
        (received_fields fs ms))
  received (array t n) (items vs) = items (map_values (received t) vs)
  received _ v = v

  pub received_fields : Fields → Members → Members
  received_fields (field n t d a fs) (member m v ms) =
      member n (received t v) (received_fields fs ms)
  received_fields _ ms = ms
