-- ===== src/C/Log.antt =====
-- `SsFindLogDelimiter`, which src/c_stuff_sack.py writes into the C file. `SsReadFile` is a
-- parameter: from the state of the file and a number of bytes, the bytes read and the state after,
-- or none for an error.
pub mod Scans
pub mod Found
pub mod Write
mod Tests
use stuff_sack.Prelude.{
  ℕ, zero, suc, ◌*◌, ◌^◌, Bool, true, false, List, [], ◌∷◌, Option, none, some, if◌then◌else◌, ◌==◌,
  leb, ltb, length, get_elem?,
}
use stuff_sack.Prelude.Text.{Text, codes}

-- `kSsLogDelimiter`
abbrev pub delimiter : Text
delimiter = codes "SsLogFileDelimiter"

abbrev pub delim_len : ℕ
delim_len = 18

-- `buf[i] == kSsLogDelimiter[delim_index]`
unfoldable pub at_delim : ℕ → ℕ → Bool
at_delim b i = elim (get_elem? delimiter i) [ none ↦ false | some c ↦ b == c ]

-- `if (buf[i] != kSsLogDelimiter[delim_index]) delim_index = 0`
unfoldable pub reset : ℕ → ℕ → ℕ
unfolding at_delim
reset i b = if at_delim b i then i else 0

-- What the inner loop leaves: the place behind the delimiter, or the two indices
pub data Scan : Type 0 where
  found : ℕ → Scan
  going : ℕ → ℕ → Scan

-- The inner loop, over the bytes of `buf` that were read
unfoldable pub scan : ℕ → ℕ → List ℕ → Scan
unfolding reset
scan file_index delim_index [] = going file_index delim_index
scan file_index delim_index (b ∷ bs) =
    let i = reset delim_index b in
    elim (at_delim b i) [
      | true ↦ elim (leb delim_len (suc i)) [
        | true ↦ found (suc file_index)
        | false ↦ scan (suc file_index) (suc i) bs
      ]
      | false ↦ scan (suc file_index) i bs
    ]

-- What `SsFindLogDelimiter` returns: a place, the error of `SsReadFile`, or -1 at the end of the
-- file. `overflowed` stands for an `int` overflow of `file_index`, which C leaves undefined.
pub data Outcome : Type 0 where
  place : ℕ → Outcome
  failed missing overflowed : Outcome

module _ {ℓ} {File : Type ℓ} (read_file : ℕ → File → Option (List ℕ × File)) where
  -- The outer loop. The first argument is fuel: the rounds that are left, `none` when they run out.
  -- `file_index` only grows, so it has overflowed exactly when it leaves the inner loop too large.
  unfoldable pub find_loop : ℕ → ℕ → ℕ → File → Option Outcome
  unfolding scan
  find_loop zero file_index delim_index fd = none
  find_loop (suc fuel) file_index delim_index fd = elim (read_file (4 * delim_len) fd) [
    | none ↦ some failed
    | some (bytes, fd') ↦ elim (scan file_index delim_index bytes) [
      | found n ↦ elim (ltb n (2 ^ 31)) [ true ↦ some (place n) | false ↦ some overflowed ]
      | going k i ↦ elim (ltb k (2 ^ 31)) [
        | true ↦ elim (length bytes == 4 * delim_len) [
          | true ↦ find_loop fuel k i fd'
          | false ↦ some missing
        ]
        | false ↦ some overflowed
      ]
    ]
  ]

  -- `SsFindLogDelimiter`
  unfoldable pub find_log_delimiter : ℕ → File → Option Outcome
  unfolding find_loop
  find_log_delimiter fuel fd = find_loop fuel 0 0 fd
