-- ===== src/Names.antt =====
-- src/utils.py, and the names that src/c_stuff_sack.py gives to the C types and functions. Letters
-- are ASCII: other characters have no case here.
pub mod Laws
mod Tests
use stuff_sack.Prelude.{
  ℕ, ◌+◌, ◌-◌, ◌*◌, Bool, ◌&&◌, List, [], ◌∷◌, ◌++◌, map, leb, ◌==◌, if◌then◌else◌,
}
use stuff_sack.Prelude.Text.{Text, codes, same}
use stuff_sack.Hash.Uid.{decimal}
use stuff_sack.Types.{SsType, root_type, root_name, type_name, all_lengths, bracketed}

-- `str.isupper`, `str.lower` and `str.upper` on one character
unfoldable pub is_upper : ℕ → Bool
is_upper c = leb b'A' c && leb c b'Z'

unfoldable pub is_lower : ℕ → Bool
is_lower c = leb b'a' c && leb c b'z'

unfoldable pub to_lower : ℕ → ℕ
unfolding is_upper
to_lower c = if is_upper c then c + 32 else c

unfoldable pub to_upper : ℕ → ℕ
unfolding is_lower
to_upper c = if is_lower c then c - 32 else c

-- `s.lstrip('_')`
unfoldable pub lstrip : Text → Text
lstrip [] = []
lstrip (c ∷ s) = if c == b'_' then lstrip s else c ∷ s

-- `['_' + c.lower() if c.isupper() else c for c in s]`, joined
unfoldable pub snake : Text → Text
unfolding to_lower
snake [] = []
snake (c ∷ s) = (if is_upper c then b'_' ∷ to_lower c ∷ [] else c ∷ []) ++ snake s

-- `camel_to_snake`
unfoldable pub camel_to_snake : Text → Text
unfolding snake lstrip
camel_to_snake s = lstrip (snake s)

-- `s.split('_')`: the part before the first underscore, and the others
unfoldable pub split : Text → Text × List Text
split [] = ([], [])
split (c ∷ s) =
    let (first, rest) = split s in if c == b'_' then ([], first ∷ rest) else (c ∷ first, rest)

-- `x[0].upper() + x[1:] if len(x) > 1 else x`
unfoldable pub capitalise : Text → Text
unfolding to_upper
capitalise (c ∷ d ∷ s) = to_upper c ∷ d ∷ s
capitalise s = s

unfoldable pub join : List Text → Text
join [] = []
join (s ∷ ss) = s ++ join ss

-- `snake_to_camel`
unfoldable pub snake_to_camel : Text → Text
unfolding split capitalise join
snake_to_camel s = let (first, rest) = split s in join (map capitalise (first ∷ rest))

-- `c_type_name`: of an array, that of its root type
unfoldable pub c_type_name : SsType → Text
c_type_name t =
    let n = root_name t in
    if same n (codes "uint8")
    then codes "uint8_t"
    else if same n (codes "uint16")
    then codes "uint16_t"
    else if same n (codes "uint32")
    then codes "uint32_t"
    else if same n (codes "uint64")
    then codes "uint64_t"
    else if same n (codes "int8")
    then codes "int8_t"
    else if same n (codes "int16")
    then codes "int16_t"
    else if same n (codes "int32")
    then codes "int32_t"
    else if same n (codes "int64")
    then codes "int64_t"
    else n

-- `c_full_type_name`
unfoldable pub c_full_type_name : SsType → Text
unfolding c_type_name bracketed all_lengths
c_full_type_name t = c_type_name t ++ bracketed (all_lengths t)

-- `c_field_name`
unfoldable pub c_field_name : Text → SsType → Text → Text
unfolding bracketed all_lengths
c_field_name name t prefix = prefix ++ name ++ bracketed (all_lengths t)

-- `pack_function_name` and `unpack_function_name`
unfoldable pub pack_function_name : SsType → Text
unfolding snake_to_camel type_name
pack_function_name t = codes "SsPack" ++ snake_to_camel (type_name t)

unfoldable pub unpack_function_name : SsType → Text
unfolding snake_to_camel type_name
unpack_function_name t = codes "SsUnpack" ++ snake_to_camel (type_name t)

-- `log_function_name`
unfoldable pub log_function_name : SsType → Text
log_function_name t = codes "SsLog" ++ type_name t

-- `packed_size_name`
unfoldable pub packed_size_name : SsType → Text
unfolding camel_to_snake to_upper
packed_size_name t =
    codes "SS_" ++ map to_upper (camel_to_snake (type_name t)) ++ codes "_PACKED_SIZE"

-- `bitfield_c_type`, of the bitfield's size
unfoldable pub bitfield_c_type : ℕ → Text
unfolding decimal
bitfield_c_type bytes = codes "uint" ++ decimal (bytes * 8) ++ codes "_t"
