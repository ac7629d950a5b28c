-- ===== src/Types/Uids.antt =====
-- The width of the unique ids, and what they do not depend on.
use mathlib.Core.Path.{ap₂}
use stuff_sack.Prelude.{ℕ, ◌+◌, ◌*◌, ◌%◌, ◌^◌, ◌≡◌, ◌<◌, refl, ap, List, [], ◌∷◌, map, none, arith}
use stuff_sack.Hash.Uid.{
  array_hash, struct_field_hash, named_list_hash, int_text, bitfield_field_hash, enum_value_hash,
}
use stuff_sack.Hash.Bounds.{named_int_hash-lt, named_list_hash-lt, array_hash-lt}
use stuff_sack.Types.{
  BitfieldField, EnumValue, SsType, primitive, bitfield, enum, struct, message, array, Fields, nil,
  field, packed_size, fields_size, uid, field_uids,
}

-- The unique id of every type fits the 32 bits of the header's `uid`.
pub uid-lt : (t : SsType) → uid t < 2 ^ 32
unfolding uid
uid-lt (primitive n b) = named_int_hash-lt n b
uid-lt (bitfield n d fs b) = named_list_hash-lt n (map (λ f. bitfield_field_hash f.name f.bits) fs)
uid-lt (enum n d vs b) = named_list_hash-lt n (map (λ v. enum_value_hash v.name v.value) vs)
uid-lt (struct n d fs) = named_list_hash-lt n (field_uids fs)
uid-lt (message n d fs) = named_list_hash-lt n (field_uids fs)
uid-lt (array t n) = array_hash-lt (uid t) n

abbrev bare_bits : BitfieldField → BitfieldField
bare_bits f = record f { description = none }

abbrev bare_value : EnumValue → EnumValue
bare_value v = record v { description = none }

-- A type without its descriptions and aliases
abbrev mutual
  pub bare : SsType → SsType
  bare (primitive n b) = primitive n b
  bare (bitfield n d fs b) = bitfield n none (map bare_bits fs) b
  bare (enum n d vs b) = enum n none (map bare_value vs) b
  bare (struct n d fs) = struct n none (bare_fields fs)
  bare (message n d fs) = message n none (bare_fields fs)
  bare (array t n) = array (bare t) n

  pub bare_fields : Fields → Fields
  bare_fields nil = nil
  bare_fields (field n t d a fs) = field n (bare t) none none (bare_fields fs)

bits_hashes :
    (fs : List BitfieldField)
    → map (λ f. bitfield_field_hash f.name f.bits) (map bare_bits fs)
      ≡ map (λ f. bitfield_field_hash f.name f.bits) fs
bits_hashes [] = refl
bits_hashes (f ∷ fs) = ap (λ us. bitfield_field_hash f.name f.bits ∷ us) (bits_hashes fs)

value_hashes :
    (vs : List EnumValue)
    → map (λ v. enum_value_hash v.name v.value) (map bare_value vs)
      ≡ map (λ v. enum_value_hash v.name v.value) vs
value_hashes [] = refl
value_hashes (v ∷ vs) = ap (λ us. enum_value_hash v.name v.value ∷ us) (value_hashes vs)

mutual
  unfolding uid

  uid-bare : (t : SsType) → uid (bare t) ≡ uid t
  uid-bare (primitive n b) = refl
  uid-bare (bitfield n d fs b) = ap (named_list_hash n) (bits_hashes fs)
  uid-bare (enum n d vs b) = ap (named_list_hash n) (value_hashes vs)
  uid-bare (struct n d fs) = ap (named_list_hash n) (field_uids-bare fs)
  uid-bare (message n d fs) = ap (named_list_hash n) (field_uids-bare fs)
  uid-bare (array t n) = ap (λ u. array_hash u n) (uid-bare t)

  field_uids-bare : (fs : Fields) → field_uids (bare_fields fs) ≡ field_uids fs
  field_uids-bare nil = refl
  field_uids-bare (field n t d a fs) =
      ap₂ (λ u us. struct_field_hash n u ∷ us) (uid-bare t) (field_uids-bare fs)

mutual
  unfolding packed_size

  packed_size-bare : (t : SsType) → packed_size (bare t) ≡ packed_size t
  packed_size-bare (primitive n b) = refl
  packed_size-bare (bitfield n d fs b) = refl
  packed_size-bare (enum n d vs b) = refl
  packed_size-bare (struct n d fs) = fields_size-bare fs
  packed_size-bare (message n d fs) = fields_size-bare fs
  packed_size-bare (array t n) = ap (λ k. k * n) (packed_size-bare t)

  fields_size-bare : (fs : Fields) → fields_size (bare_fields fs) ≡ fields_size fs
  fields_size-bare nil = refl
  fields_size-bare (field n t d a fs) =
      ap₂ (λ (a b : ℕ). a + b) (packed_size-bare t) (fields_size-bare fs)

-- Descriptions and aliases change neither the unique id nor the packed size of a type.
pub bare_lem : (t : SsType) → (uid (bare t) ≡ uid t) × (packed_size (bare t) ≡ packed_size t)
bare_lem t = (uid-bare t, packed_size-bare t)

-- The length of an array is hashed as a C `int`: lengths that differ by 2^32 hash alike.
pub array-uid_wrap : (t : SsType) (n : ℕ) → uid (array t (n + 2 ^ 32)) ≡ uid (array t n)
unfolding uid array_hash int_text
array-uid_wrap t n = let e : (n + 2 ^ 32) % 2 ^ 32 ≡ n % 2 ^ 32 = omega arith in rw e refl
