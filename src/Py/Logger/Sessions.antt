-- ===== src/Py/Logger/Sessions.antt =====
-- What a log holds, after any methods of a `Logger` have been called.
use mathlib.Core.List.{append-nil}
use stuff_sack.Prelude.{
  ℕ, ◌≡◌, ◌⊎◌, ap, sym, ◌∙◌, List, [], ◌∷◌, ◌++◌, Option, some, true, false, Bool, All, length,
}
use stuff_sack.Prelude.Text.{Text, Distinct}
use stuff_sack.Prelude.Int.{ℤ, pos}
use stuff_sack.Errors.{ok}
use stuff_sack.Yaml.{Yaml}
use stuff_sack.Types.{SsType, message, Fields, packed_size, root_name}
use stuff_sack.Names.{pack_function_name}
use stuff_sack.Spec.Build.{Registry, find}
use stuff_sack.Spec.Parse.{ClassState, parse_yaml}
use stuff_sack.C.Syntax.{Function}
use stuff_sack.C.Memory.{Value}
use stuff_sack.C.Run.{call_function, program, load}
use stuff_sack.C.Run.Spec.{IsSupported, HasType, encode}
use stuff_sack.C.Run.Files.{function_names}
use stuff_sack.C.Generated.{generated-packs}
use stuff_sack.C.Log.Write.{WriteFile, WritesAll, message_log}
use stuff_sack.Py.Logger.{
  FileP, null, live, Logger, LogError, WriteHeader, WriteMessage, open_log, close_log, log_message,
}

-- The messages that were logged, with their types
abbrev pub Logged : Type 0
Logged = List (SsType × Value)

abbrev pub after_open : Bool → Logged → Logged
after_open true ms = []
after_open false ms = ms

abbrev pub after_log : FileP → SsType → Value → Logged → Logged
after_log live t v ms = ms ++ (t, v) ∷ []
after_log _ t v ms = ms

-- The objects that calls of the methods lead to, with the messages that were logged since the file
-- was last opened. A call may raise an exception.
pub data Reached (types : Registry) (write_header : WriteHeader) (write_message : WriteMessage)
    : Logger → Logged → Type 0 where
  start :
      Reached types write_header write_message
        (record { file_p = null; contents = []; leaked = false })
        []
  opened :
      {l : Logger} {ms : Logged} {l' : Logger} {ms' : Logged} {e : Option LogError} (opens : Bool)
      → Reached types write_header write_message l ms
      → open_log opens write_header l ≡ some (e, l')
      → ms' ≡ after_open opens ms
      → Reached types write_header write_message l' ms'
  closed :
      {l : Logger} {ms : Logged} {l' : Logger} {e : Option LogError} (closes : Bool)
      → Reached types write_header write_message l ms
      → close_log closes l ≡ some (e, l')
      → Reached types write_header write_message l' ms
  logged :
      {l : Logger} {ms : Logged} {l' : Logger} {ms' : Logged} {e : Option LogError} (n : Text)
      (d : Option Text) (fs : Fields) (v : Value)
      → Reached types write_header write_message l ms
      → find n types ≡ some (message n d fs)
      → HasType (message n d fs) v
      → log_message write_message (message n d fs) v l ≡ some (e, l')
      → ms' ≡ after_log l.file_p (message n d fs) v ms
      → Reached types write_header write_message l' ms'

abbrev pub all_bytes : Logged → List ℕ
all_bytes [] = []
all_bytes ((t, v) ∷ ms) = encode t v ++ all_bytes ms

-- Before the file is opened it is empty, and from then on it holds the header and the messages.
abbrev Holds : List ℕ → Logger → Logged → Type 0
Holds header l ms =
    ((l.file_p ≡ null) × (l.contents ≡ []) × (ms ≡ [])) ⊎ (l.contents ≡ header ++ all_bytes ms)

module _ (yaml : Yaml) (tag : Option Text) (types : List SsType) (state' : ClassState)
    (ps : List (Text × Function)) (write_file : WriteFile) (local_of : SsType → List ℕ)
    (parsed : parse_yaml yaml tag ≡ ok (types, state')) (distinct : Distinct (function_names types))
    (ranges : All IsSupported types) (packs : program types ≡ ok ps) (all : WritesAll write_file)
    (sized : (t : SsType) → length (local_of t) ≡ packed_size t) where
  -- The `_log_func` of a message, with the local `buf` as `local_of` gives it
  abbrev pub log_func : WriteMessage
  log_func t v file = message_log write_file (load ps []) t (local_of t) file v

  pub log_func-written :
      (n : Text) (d : Option Text) (fs : Fields) (v : Value) (file : List ℕ)
      → find n types ≡ some (message n d fs)
      → HasType (message n d fs) v
      → (ret : ℤ) × (log_func (message n d fs) v file
          ≡ some (ret, file ++ encode (message n d fs) v))
  unfolding message_log root_name
  log_func-written n d fs v file found fits =
      let t = message n d fs in
      let packed =
        (generated-packs yaml tag types state' ps t v [] (local_of t) [] parsed distinct ranges
          packs found tt fits (sized t)).1 in
      let filled : call_function (load ps []) (pack_function_name t) v 0 (local_of t)
          ≡ some (encode t v) =
        ap (call_function (load ps []) (pack_function_name t) v 0) (sym (append-nil (local_of t)))
        ∙ packed
        ∙ ap some (append-nil (encode t v)) in
      (pos (length (encode t v)), rw filled (ap some (all file (encode t v))))
