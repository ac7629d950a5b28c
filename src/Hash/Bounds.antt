-- ===== src/Hash/Bounds.antt =====
-- The width of the CRC, and of the unique ids that are hashed by it.
use Prim.Native.Nat.{min, bit_and, bit_xor, bit_and-bitwise, bit_xor-bitwise, digits, differ}
use stuff_sack.Prelude.{ℕ, zero, suc, ◌/◌, ◌%◌, ◌^◌, ◌<◌, ◌≤◌, List, [], ◌∷◌, ◌++◌, arith}
use native.Mathlib.Nat.{pow-suc}
use stuff_sack.Prelude.Text.{Text, codes}
use stuff_sack.Hash.Uid.{
  named_int_hash, named_list_hash, array_hash, name_bytes, int_text, append_uids, decimal,
}
use stuff_sack.Hash.Crc.{poly, crc_round, crc_rounds, crc_table, crc_step, crc_loop, get_crc32}

differ_le : (x y : ℕ) → x ≤ 1 → y ≤ 1 → differ x y ≤ 1
differ_le zero y h k = k
differ_le (suc x) zero h k = h
differ_le (suc zero) (suc zero) h k = omega arith
differ_le (suc zero) (suc (suc y)) h k = absurd (omega arith)
differ_le (suc (suc x)) (suc y) h k = absurd (omega arith)

xor_digits_lt : (f n a b : ℕ) → a < 2 ^ n → b < 2 ^ n → digits (λ b. b) differ f a b < 2 ^ n
xor_digits_lt zero n a b h k = k
xor_digits_lt (suc f) n zero b h k = k
xor_digits_lt (suc f) zero (suc a) b h k = absurd (omega arith)
xor_digits_lt (suc f) (suc n) (suc a) b h k =
    let half = pow-suc 2 n in
    let rest = xor_digits_lt f n (suc a / 2) (b / 2) (omega arith) (omega arith) in
    let digit = differ_le (suc a % 2) (b % 2) (omega arith) (omega arith) in omega arith

pub bit_xor_lt : (n a b : ℕ) → a < 2 ^ n → b < 2 ^ n → bit_xor a b < 2 ^ n
bit_xor_lt n a b h k = omega (arith, bit_xor-bitwise a b, xor_digits_lt a n a b h k)

and_digits_le : (f a b : ℕ) → digits (λ b. zero) min f a b ≤ b
and_digits_le zero a b = omega arith
and_digits_le (suc f) zero b = omega arith
and_digits_le (suc f) (suc a) b = omega (arith, and_digits_le f (suc a / 2) (b / 2))

pub bit_and_le : (a b : ℕ) → bit_and a b ≤ b
bit_and_le a b = omega (arith, bit_and-bitwise a b, and_digits_le a a b)

crc_rounds-lt : (n c : ℕ) → c < 2 ^ 32 → crc_rounds n c < 2 ^ 32
unfolding crc_rounds crc_round
crc_rounds-lt zero c h = h
crc_rounds-lt (suc n) c h =
    let flipped = bit_xor_lt 32 poly (c / 2) (omega arith) (omega arith) in
    crc_rounds-lt n (crc_round c) (ground arith)

crc_step-lt : (crc b : ℕ) → crc < 2 ^ 32 → crc_step crc b < 2 ^ 32
unfolding crc_step crc_table
crc_step-lt crc b h =
    let index = bit_and_le (bit_xor crc b) 0xFF in
    bit_xor_lt 32 _ _ (crc_rounds-lt 8 _ (omega arith)) (omega arith)

crc_loop-lt : (crc : ℕ) (bytes : List ℕ) → crc < 2 ^ 32 → crc_loop crc bytes < 2 ^ 32
unfolding crc_loop
crc_loop-lt crc [] h = h
crc_loop-lt crc (b ∷ bytes) h = crc_loop-lt (crc_step crc b) bytes (crc_step-lt crc b h)

-- The CRC of any bytes is below 2^32.
pub get_crc32-lt : (bytes : List ℕ) → get_crc32 bytes < 2 ^ 32
unfolding get_crc32
get_crc32-lt bytes = bit_xor_lt 32 _ _ (crc_loop-lt 0xFFFFFFFF bytes (omega arith)) (omega arith)

pub named_int_hash-lt : (name : Text) (n : ℕ) → named_int_hash name n < 2 ^ 32
unfolding named_int_hash
named_int_hash-lt name n = get_crc32-lt (name_bytes name ++ codes ", " ++ int_text n)

pub named_list_hash-lt : (name : Text) (us : List ℕ) → named_list_hash name us < 2 ^ 32
unfolding named_list_hash
named_list_hash-lt name us = get_crc32-lt (append_uids (name_bytes name) us)

pub array_hash-lt : (u n : ℕ) → array_hash u n < 2 ^ 32
unfolding array_hash
array_hash-lt u n = get_crc32-lt (decimal u ++ codes ", " ++ int_text n)
