-- ===== src/C/Run/Spec.antt =====
-- The wire format: the bytes that stand for a value of a type, most significant first, with no
-- padding.
use stuff_sack.Prelude.{
  ℕ, zero, suc, ◌*◌, ◌/◌, ◌%◌, ◌^◌, ◌≡◌, ◌<◌, ◌&&◌, not, false, List, [], ◌∷◌, ◌++◌,
}
use stuff_sack.Types.{
  SsType, primitive, bitfield, enum, struct, message, array, Fields, nil, field, packed_size,
  fields_size, root_name, uid,
}
use stuff_sack.C.Generate.{is_aliased}
use stuff_sack.C.Run.{is_c_type}
use stuff_sack.C.Memory.{
  Value, word, items, block, Values, stop, more, Members, last, member, count, convert,
}

-- The last `n` base-256 digits of a number, the most significant first.
unfoldable pub big_endian : ℕ → ℕ → List ℕ
big_endian zero w = []
big_endian (suc n) w = big_endian n (w / 256) ++ w % 256 ∷ []

abbrev pub AllValues : (Value → Type 0) → Values → Type 0
AllValues P stop = Unit
AllValues P (more v vs) = P v × AllValues P vs

unfoldable pub concat_values : (Value → List ℕ) → Values → List ℕ
concat_values f stop = []
concat_values f (more v vs) = f v ++ concat_values f vs

-- An array type with lengths that an `int32_t` counts to
abbrev pub ShortArrays : SsType → Type 0
ShortArrays (array t n) = (n < 2 ^ 31) × ShortArrays t
ShortArrays _ = Unit

abbrev pub ShortFields : Fields → Type 0
ShortFields nil = Unit
ShortFields (field n t d a fs) = ShortArrays t × ShortFields fs

-- No aliased field has an integer type, whose name C does not know.
abbrev pub AliasesCompile : Fields → Type 0
AliasesCompile nil = Unit
AliasesCompile (field n t d a fs) =
    ((is_aliased a && not (is_c_type (root_name t))) ≡ false) × AliasesCompile fs

-- A type whose functions compile, and compute their loops and offsets in an `int`: no array of a
-- field has 2 ^ 31 elements, and the fields take less than 2 ^ 31 bytes.
abbrev pub IsSupported : SsType → Type 0
IsSupported (struct n d fs) = ShortFields fs × (fields_size fs < 2 ^ 31) × AliasesCompile fs
IsSupported (message n d fs) = ShortFields fs × (fields_size fs < 2 ^ 31) × AliasesCompile fs
IsSupported _ = Unit

-- A value that an object of the type can hold. The C object of an enum is an `int`.
abbrev mutual
  pub HasType : SsType → Value → Type 0
  HasType (primitive n b) (word w) = w < 256 ^ b
  HasType (bitfield n d fs b) (word w) = w < 256 ^ b
  HasType (enum n d vs b) (word w) = w < 2 ^ 32
  HasType (struct n d fs) (block ms) = HasFields fs ms
  HasType (message n d fs) (block ms) = HasFields fs ms
  HasType (array t n) (items vs) = (count vs ≡ n) × AllValues (HasType t) vs
  HasType _ _ = ⊥

  pub HasFields : Fields → Members → Type 0
  HasFields nil last = Unit
  HasFields (field n t d a fs) (member m v ms) = (m ≡ n) × HasType t v × HasFields fs ms
  HasFields _ _ = ⊥

-- The bytes of a value. A message begins with its unique id and its packed size, whatever the
-- members of its header are.
unfoldable mutual
  pub encode : SsType → Value → List ℕ
  encode (primitive n b) (word w) = big_endian b w
  encode (bitfield n d fs b) (word w) = big_endian b w
  encode (enum n d vs b) (word w) = big_endian b (convert 32 (b * 8) w)
  encode (struct n d fs) (block ms) = encode_fields fs ms
  encode (message n d (field h t e a fs)) (block (member m v ms)) =
      big_endian 4 (uid (message n d (field h t e a fs)))
      ++ big_endian 2 (packed_size (message n d (field h t e a fs)))
      ++ encode_fields fs ms
  encode (array t n) (items vs) = concat_values (encode t) vs
  encode _ _ = []

  pub encode_fields : Fields → Members → List ℕ
  encode_fields (field n t d a fs) (member m v ms) = encode t v ++ encode_fields fs ms
  encode_fields _ _ = []
