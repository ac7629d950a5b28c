-- ===== src/Types/Sizes.antt =====
-- `_bytes_for_bits` and `_bytes_for_value` of src/stuff_sack.py.
use stuff_sack.Prelude.{
  ℕ, zero, suc, ◌+◌, ◌/◌, Bool, true, false, List, [], ◌∷◌, leb, ◌==◌, if◌then◌else◌,
}
use stuff_sack.Prelude.Int.{ℤ, pos, negsuc}
use stuff_sack.Errors.{value_error, Result, ok, err}

-- `for x in sizes: if x >= raw_bytes: return x`, and the `raise` behind the loop
unfoldable pub first_at_least : List ℕ → ℕ → Result ℕ
first_at_least [] raw_bytes = err value_error
first_at_least (x ∷ xs) raw_bytes = if leb raw_bytes x then ok x else first_at_least xs raw_bytes

-- `_bytes_for_bits`. Python's `(bits - 1) // 8 + 1` rounds down, also at 0 bits, so it is
-- `(bits + 7) / 8`.
unfoldable pub bytes_for_bits : ℤ → Result ℕ
unfolding first_at_least
bytes_for_bits (negsuc n) = err value_error
bytes_for_bits (pos bits) = first_at_least (1 ∷ 2 ∷ 4 ∷ 8 ∷ []) ((bits + 7) / 8)

-- `int.bit_length`. The first argument is fuel; `n` itself is enough.
unfoldable pub bit_length_loop : ℕ → ℕ → ℕ
bit_length_loop zero n = 0
bit_length_loop (suc f) n = elim (n == 0) [ true ↦ 0 | false ↦ suc (bit_length_loop f (n / 2)) ]

unfoldable pub bit_length : ℕ → ℕ
unfolding bit_length_loop
bit_length n = bit_length_loop n n

-- `_bytes_for_value`
unfoldable pub bytes_for_value : ℤ → Bool → Result ℕ
unfolding bytes_for_bits bit_length
bytes_for_value (negsuc n) signed = err value_error
bytes_for_value (pos value) signed =
    bytes_for_bits (pos (bit_length value + (if signed then 1 else 0)))
