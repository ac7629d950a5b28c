-- ===== src/Py/Logger.antt =====
-- `Logger` of src/py_stuff_sack.py. Whether `fopen` and `fclose` succeed is an argument, as are
-- `SsWriteLogHeader` and the `_log_func` of a message, which are functions of what was written to the
-- file. `none` is undefined behaviour of C.
pub mod Sessions
use stuff_sack.Prelude.{
  ℕ, List, [], Option, none, some, ltb, if◌then◌else◌, Bool, true, false, ◌||◌,
}
use stuff_sack.Prelude.Int.{ℤ, pos, negsuc}
use stuff_sack.Types.{SsType}
use stuff_sack.C.Memory.{Value, ◌>>=◌}

-- `file_p`: None, a FILE, or a FILE on which `fclose` has failed
pub data FileP : Type 0 where
  null live dead : FileP

-- The object, with what was written to the FILE that was opened last, and whether an earlier FILE was
-- left open
pub record Logger : Type 0 where
  pub file_p : FileP
  pub contents : List ℕ
  pub leaked : Bool

-- The exceptions: OSError of `open` and `close`, and the two RuntimeErrors of `log`
pub data LogError : Type 0 where
  not_opened header_not_written not_closed not_open message_not_written : LogError

abbrev pub WriteHeader : Type 0
WriteHeader = List ℕ → Option (ℤ × List ℕ)

abbrev pub WriteMessage : Type 0
WriteMessage = SsType → Value → List ℕ → Option (ℤ × List ℕ)

-- The exception, if there is one, and the object after the call
abbrev pub Called : Type 0
Called = Option (Option LogError × Logger)

-- `ret <= 0`
unfoldable pub is_failure : ℤ → Bool
is_failure (pos n) = ltb n 1
is_failure (negsuc n) = true

abbrev pub is_live : FileP → Bool
is_live live = true
is_live _ = false

-- `open`: the file is emptied. A FILE that is still open is forgotten.
unfoldable pub open_log : Bool → WriteHeader → Logger → Called
unfolding is_failure
open_log false write_header l = some (some not_opened, l)
open_log true write_header l = do
  r ← write_header []
  some (
    (if is_failure r.0 then some header_not_written else none),
    record { file_p = live; contents = r.1; leaked = l.leaked || is_live l.file_p },
  )

-- `close`, by `file_p`. `file_p` is not reset when `fclose` fails.
unfoldable pub close_file : Bool → FileP → Logger → Called
close_file closes null l = some (none, record l { file_p = null })
close_file true live l = some (none, record l { file_p = null })
close_file false live l = some (some not_closed, record l { file_p = dead })
close_file closes dead l = none

unfoldable pub close_log : Bool → Logger → Called
unfolding close_file
close_log closes l = close_file closes l.file_p l

-- `log`, by `file_p`
unfoldable pub log_file : WriteMessage → SsType → Value → FileP → Logger → Called
unfolding is_failure
log_file write_message t v null l = some (some not_open, l)
log_file write_message t v live l = do
  r ← write_message t v l.contents
  some ((if is_failure r.0 then some message_not_written else none), record l { contents = r.1 })
log_file write_message t v dead l = none

unfoldable pub log_message : WriteMessage → SsType → Value → Logger → Called
unfolding log_file
log_message write_message t v l = log_file write_message t v l.file_p l

-- What the file holds when the C library has written out its buffer. It is not determined when
-- `fclose` has failed, nor when a FILE is left open that has bytes to write at its own place.
unfoldable pub file_of : Logger → Option (List ℕ)
file_of l = if l.leaked then none else elim l.file_p [ dead ↦ none | _ ↦ some l.contents ]
