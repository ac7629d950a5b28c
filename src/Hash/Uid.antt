-- ===== src/Hash/Uid.antt =====
-- src/uid_hash.cc, called through src/uid_hash.py: the text that each kind of type is hashed from.
use stuff_sack.Prelude.{
  ℕ, zero, suc, ◌+◌, ◌-◌, ◌/◌, ◌%◌, ◌^◌, true, false, List, [], ◌∷◌, ◌++◌, ltb, ◌==◌, if◌then◌else◌,
}
use stuff_sack.Prelude.Text.{Text, codes}
use stuff_sack.Hash.Crc.{get_crc32}

-- `std::to_string` of an unsigned number. The first argument is fuel; `n` itself is enough.
unfoldable pub decimal_loop : ℕ → ℕ → Text
decimal_loop zero n = (48 + n % 10) ∷ []
decimal_loop (suc f) n = elim (ltb n 10) [
  | true ↦ (48 + n) ∷ []
  | false ↦ decimal_loop f (n / 10) ++ (48 + n % 10) ∷ []
]

unfoldable pub decimal : ℕ → Text
unfolding decimal_loop
decimal n = decimal_loop n n

-- `std::to_string` of the C `int` that ctypes makes of a Python integer: 32 bits, two's complement.
unfoldable pub int_text : ℕ → Text
unfolding decimal
int_text n = let w = n % 2 ^ 32 in if ltb w (2 ^ 31) then decimal w else b'-' ∷ decimal (2 ^ 32 - w)

-- `str.encode()`: UTF-8.
unfoldable pub utf8 : Text → List ℕ
utf8 [] = []
utf8 (c ∷ s) =
    (if ltb c 0x80
      then c ∷ []
      else if ltb c 0x800
      then (0xC0 + c / 64) ∷ (0x80 + c % 64) ∷ []
      else if ltb c 0x10000
      then (0xE0 + c / 4096) ∷ (0x80 + c / 64 % 64) ∷ (0x80 + c % 64) ∷ []
      else (0xF0 + c / 262144)
        ∷ (0x80 + c / 4096 % 64)
        ∷ (0x80 + c / 64 % 64)
        ∷ (0x80 + c % 64)
        ∷ [])
    ++ utf8 s

-- `std::string(name)` of a `const char *`: the bytes before the first zero.
unfoldable pub c_string : List ℕ → List ℕ
c_string [] = []
c_string (c ∷ s) = if c == 0 then [] else c ∷ c_string s

unfoldable pub name_bytes : Text → List ℕ
unfolding utf8 c_string
name_bytes name = c_string (utf8 name)

-- `s += ", " + std::to_string(uids[i])` for each uid
unfoldable pub append_uids : List ℕ → List ℕ → List ℕ
unfolding decimal
append_uids s [] = s
append_uids s (u ∷ us) = append_uids (s ++ codes ", " ++ decimal u) us

-- `PrimitiveHash`, and likewise `BitfieldFieldHash` and `EnumValueHash`
unfoldable pub named_int_hash : Text → ℕ → ℕ
unfolding get_crc32 name_bytes int_text
named_int_hash name n = get_crc32 (name_bytes name ++ codes ", " ++ int_text n)

abbrev pub primitive_hash : Text → ℕ → ℕ
primitive_hash = named_int_hash

abbrev pub bitfield_field_hash : Text → ℕ → ℕ
bitfield_field_hash = named_int_hash

abbrev pub enum_value_hash : Text → ℕ → ℕ
enum_value_hash = named_int_hash

-- `ArrayHash`
unfoldable pub array_hash : ℕ → ℕ → ℕ
unfolding get_crc32 decimal int_text
array_hash type_hash array_size = get_crc32 (decimal type_hash ++ codes ", " ++ int_text array_size)

-- `StructFieldHash`
unfoldable pub struct_field_hash : Text → ℕ → ℕ
unfolding get_crc32 name_bytes decimal
struct_field_hash name type_hash = get_crc32 (name_bytes name ++ codes ", " ++ decimal type_hash)

-- `BitfieldHash`, and likewise `EnumHash` and `StructHash`
unfoldable pub named_list_hash : Text → List ℕ → ℕ
unfolding get_crc32 name_bytes append_uids
named_list_hash name uids = get_crc32 (append_uids (name_bytes name) uids)

abbrev pub bitfield_hash : Text → List ℕ → ℕ
bitfield_hash = named_list_hash

abbrev pub enum_hash : Text → List ℕ → ℕ
enum_hash = named_list_hash

abbrev pub struct_hash : Text → List ℕ → ℕ
struct_hash = named_list_hash
