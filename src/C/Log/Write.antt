-- ===== src/C/Log/Write.antt =====
-- The functions that src/c_stuff_sack.py writes into the C file to write a log. `SsWriteFile`, which
-- is `fwrite`, is a parameter: from the contents of the file and the bytes, what it returns and the
-- contents after.
use stuff_sack.Prelude.{ℕ, ◌+◌, ◌^◌, ◌<◌, ◌≡◌, refl, List, [], ◌++◌, Option, some, length}
use stuff_sack.Prelude.Int.{ℤ, pos, negsuc}
use stuff_sack.Types.{SsType}
use stuff_sack.Names.{pack_function_name}
use stuff_sack.C.Memory.{Value, ◌>>=◌, int_value, int_value-lt}
use stuff_sack.C.Run.{Env, call_function}
use stuff_sack.C.Log.{delimiter}

abbrev pub WriteFile : Type 0
WriteFile = List ℕ → List ℕ → ℤ × List ℕ

-- `SsWriteLogHeader` behind the first write, and behind the second; the sum is an `int`.
unfoldable pub delim_written : ℕ → ℤ × List ℕ → Option (ℤ × List ℕ)
unfolding int_value
delim_written yaml_ret (negsuc n, file) = some (negsuc n, file)
delim_written yaml_ret (pos n, file) = do ret ← int_value (yaml_ret + n); some (pos ret, file)

unfoldable pub yaml_written : WriteFile → ℤ × List ℕ → Option (ℤ × List ℕ)
unfolding delim_written
yaml_written write_file (negsuc n, file) = some (negsuc n, file)
yaml_written write_file (pos n, file) = delim_written n (write_file file delimiter)

-- `SsWriteLogHeader`, with `kYamlHeader`
unfoldable pub write_log_header : WriteFile → List ℕ → List ℕ → Option (ℤ × List ℕ)
unfolding yaml_written
write_log_header write_file yaml_header file = yaml_written write_file (write_file file yaml_header)

-- `SsLog<message>`; `buf` is the local before it is written to.
unfoldable pub message_log :
    WriteFile → Env → SsType → List ℕ → List ℕ → Value → Option (ℤ × List ℕ)
unfolding call_function
message_log write_file env t buf file v = do
  packed ← call_function env (pack_function_name t) v 0 buf
  some (write_file file packed)

-- `SsWriteFile` writes all the bytes that it is given.
abbrev pub WritesAll : WriteFile → Type 0
WritesAll write_file =
    (file data_bytes : List ℕ)
    → write_file file data_bytes ≡ (pos (length data_bytes), file ++ data_bytes)

pub write_log_header-all :
    (write_file : WriteFile) (yaml_header : List ℕ)
    → WritesAll write_file
    → length yaml_header + length delimiter < 2 ^ 31
    → write_log_header write_file yaml_header []
      ≡ some (pos (length yaml_header + length delimiter), yaml_header ++ delimiter)
unfolding write_log_header
write_log_header-all write_file yaml_header all short =
    rw
      (
        all [] yaml_header,
        yaml_written,
        all yaml_header delimiter,
        delim_written,
        int_value-lt (length yaml_header + length delimiter) short,
      )
      refl
