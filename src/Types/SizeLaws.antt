-- ===== src/Types/SizeLaws.antt =====
-- What `_bytes_for_bits` and `_bytes_for_value` return.
use stuff_sack.Prelude.{
  ℕ, zero, suc, ◌+◌, ◌-◌, ◌*◌, ◌/◌, ◌^◌, ◌≤◌, ◌<◌, ◌≡◌, ◌⊎◌, inl, inr, refl, sym, ◌↔◌, true, arith,
}
use mathlib.Core.Path.{subst}
use native.Mathlib.Nat.{pow-suc, one-le-pow}
use stuff_sack.Prelude.Int.{pos, negsuc}
use stuff_sack.Errors.{ok, value_error, err}
use stuff_sack.Types.Sizes.{bytes_for_bits, bit_length_loop, bit_length, bytes_for_value}

abbrev pub IsWord : ℕ → Type 0
IsWord bytes = (bytes ≡ 1) ⊎ ((bytes ≡ 2) ⊎ ((bytes ≡ 4) ⊎ (bytes ≡ 8)))

pub IsWord-ind {ℓ} : (P : ℕ → Type ℓ) → P 1 → P 2 → P 4 → P 8 → (b : ℕ) → IsWord b → P b
IsWord-ind P one two four eight b (inl e) = subst P (sym e) one
IsWord-ind P one two four eight b (inr (inl e)) = subst P (sym e) two
IsWord-ind P one two four eight b (inr (inr (inl e))) = subst P (sym e) four
IsWord-ind P one two four eight b (inr (inr (inr e))) = subst P (sym e) eight

-- `bytes` is the least of 1, 2, 4 and 8 bytes that hold `bits` bits.
pub record IsLeastSize (bits bytes : ℕ) : Type 0 where
  pub word : IsWord bytes
  pub fits : bits ≤ 8 * bytes
  pub least : (bytes ≡ 1) ⊎ (4 * bytes < bits)

-- `_bytes_for_bits` returns `bytes` exactly when `bytes` is the least of 1, 2, 4 and 8 bytes that
-- hold the bits. It raises ValueError for a negative number of bits, and for another number exactly
-- when there are more than 64 bits.
pub bytes_for_bits_iff :
    (bits bytes : ℕ)
    → ((bytes_for_bits (pos bits) ≡ ok bytes) ↔ IsLeastSize bits bytes)
      × ((bytes_for_bits (pos bits) ≡ err value_error) ↔ (64 < bits))
      × (bytes_for_bits (negsuc bits) ≡ err value_error)
unfolding bytes_for_bits
bytes_for_bits_iff bits bytes =
    ((λ h. ground arith, λ v. ground arith), (λ h. ground arith, λ h. ground arith), refl)

bit_length_loop_le_iff : (f n k : ℕ) → n ≤ f → (bit_length_loop f n ≤ k) ↔ (n < 2 ^ k)
unfolding bit_length_loop
bit_length_loop_le_iff zero n k h = (λ p. omega (arith, one-le-pow k 2), λ p. omega arith)
bit_length_loop_le_iff (suc f) zero k h = (λ p. omega (arith, one-le-pow k 2), λ p. omega arith)
bit_length_loop_le_iff (suc f) (suc n) zero h = (λ p. ground arith, λ p. ground arith)
bit_length_loop_le_iff (suc f) (suc n) (suc k) h =
    let step = bit_length_loop_le_iff f (suc n / 2) k (omega arith) in
    (λ p. ground (arith, step.0, pow-suc 2 k), λ p. ground (arith, step.1, pow-suc 2 k))

-- A number has at most `k` bits exactly when it is below `2 ^ k`.
pub bit_length_le_iff : (n k : ℕ) → (bit_length n ≤ k) ↔ (n < 2 ^ k)
unfolding bit_length
bit_length_le_iff n k = bit_length_loop_le_iff n n k (omega arith)

-- `bytes` is the least of 1, 2, 4 and 8 bytes whose signed integers reach `value`.
pub record IsLeastSigned (value bytes : ℕ) : Type 0 where
  pub word : IsWord bytes
  pub fits : value < 2 ^ (8 * bytes - 1)
  pub least : (bytes ≡ 1) ⊎ (2 ^ (4 * bytes - 1) ≤ value)

IsLeastSize-iff :
    (value bytes : ℕ) → IsLeastSize (bit_length value + 1) bytes ↔ IsLeastSigned value bytes
IsLeastSize-iff value bytes =
    let at7 = bit_length_le_iff value 7 in
    let at15 = bit_length_le_iff value 15 in
    let at31 = bit_length_le_iff value 31 in
    let at63 = bit_length_le_iff value 63 in (λ v. ground arith, λ v. ground arith)

-- For a signed value that is not negative, `_bytes_for_value` returns `bytes` exactly when `bytes`
-- is the least of 1, 2, 4 and 8 bytes whose signed integers reach the value.
pub bytes_for_value_iff :
    (value bytes : ℕ) → (bytes_for_value (pos value) true ≡ ok bytes) ↔ IsLeastSigned value bytes
unfolding bytes_for_value
bytes_for_value_iff value bytes =
    let sizes = (bytes_for_bits_iff (bit_length value + 1) bytes).0 in
    (
      λ h. (IsLeastSize-iff value bytes).0 (sizes.0 h),
      λ v. sizes.1 ((IsLeastSize-iff value bytes).1 v),
    )
