-- ===== src/Hash/Crc.antt =====
-- src/crc32.h: the CRC-32 of a byte string, by a table of 256 entries.
use Prim.Native.Nat.{bit_and, bit_xor}
use stuff_sack.Prelude.{ℕ, zero, suc, ◌/◌, ◌≡◌, refl, List, [], ◌∷◌, ◌==◌, if◌then◌else◌}
use stuff_sack.Prelude.Text.{codes}

abbrev pub poly : ℕ
poly = 0xEDB88320

-- One round of the inner loop of `GenerateCrc32Table`; `c >> 1` is `c / 2`.
unfoldable pub crc_round : ℕ → ℕ
crc_round c = if bit_and c 1 == 1 then bit_xor poly (c / 2) else c / 2

unfoldable pub crc_rounds : ℕ → ℕ → ℕ
unfolding crc_round
crc_rounds zero c = c
crc_rounds (suc n) c = crc_rounds n (crc_round c)

-- `table[i]`
unfoldable pub crc_table : ℕ → ℕ
unfolding crc_rounds
crc_table i = crc_rounds 8 i

-- The body of the loop of `GetCrc32`; `crc >> 8` is `crc / 256`.
unfoldable pub crc_step : ℕ → ℕ → ℕ
unfolding crc_table
crc_step crc b = bit_xor (crc_table (bit_and (bit_xor crc b) 0xFF)) (crc / 256)

unfoldable pub crc_loop : ℕ → List ℕ → ℕ
unfolding crc_step
crc_loop crc [] = crc
crc_loop crc (b ∷ bs) = crc_loop (crc_step crc b) bs

-- `GetCrc32`
unfoldable pub get_crc32 : List ℕ → ℕ
unfolding crc_loop
get_crc32 bytes = bit_xor (crc_loop 0xFFFFFFFF bytes) 0xFFFFFFFF

get_crc32_check : get_crc32 (codes "123456789") ≡ 0xCBF43926
unfolding get_crc32
get_crc32_check = refl
