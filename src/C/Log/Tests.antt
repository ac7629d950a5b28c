-- ===== src/C/Log/Tests.antt =====
-- The search for the delimiter in a small file.
use stuff_sack.Prelude.{ℕ, suc, ◌+◌, ◌≡◌, ◌≤◌, List, ◌++◌, some, length, arith}
use stuff_sack.Prelude.Text.{codes}
use stuff_sack.C.Log.{delimiter, delim_len, Outcome, place, find_log_delimiter}
use stuff_sack.C.Log.Scans.{Occurs}
use stuff_sack.C.Log.Found.{read_bytes, find_log_delimiter-first}

abbrev file : List ℕ
file = codes "a: 1 SsLogFSsLogFileDelimiter and 2 bytes"

find_log_delimiter-first_example :
    (r : Outcome) × (find_log_delimiter read_bytes (suc (length file)) file ≡ some r)
    × ((n : ℕ) → r ≡ place n → Occurs file n)
    × ((front behind : List ℕ)
        → file ≡ front ++ (delimiter ++ behind)
        → (n : ℕ) × (r ≡ place n) × (n ≤ length front + delim_len))
find_log_delimiter-first_example = find_log_delimiter-first file (omega arith)
