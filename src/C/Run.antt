-- ===== src/C/Run.antt =====
-- What the generated packing functions do. A function is defined over those that stand above it in
-- the file, as C requires of a `static inline` function that is called.
pub mod Spec
pub mod Bytes
pub mod Frames
pub mod Calls
mod Declared
pub mod Structs
pub mod Functions
pub mod Files
use stuff_sack.Prelude.{
  ℕ, zero, suc, ◌+◌, ◌-◌, ◌*◌, ◌/◌, ◌%◌, ◌^◌, Bool, ◌&&◌, not, true, false, List, [], ◌∷◌, ◌++◌,
  Option, none, some, if◌then◌else◌,
}
use stuff_sack.Prelude.Text.{Text, codes, same, contains}
use stuff_sack.Errors
use stuff_sack.Errors.{Result, ok}
use stuff_sack.Types.{SsType, bracketed}
use stuff_sack.Names.{snake_to_camel, pack_function_name}
use stuff_sack.C.Syntax.{
  Offset, Place, Stmt, call, loop, Body, Function, stores, widened, fields, stamped,
}
use stuff_sack.C.Generate.{pack}
use stuff_sack.C.Memory.{
  Value, word, items, block, Members, last, member, ◌>>=◌, get_member, set_member, Vars, index_all,
  eval_offset, int_value, store, convert,
}

-- A function from the object that `data` points to, the place that `buffer` points to and the
-- memory there to the memory after the call; `none` is a fault.
abbrev pub Pack : Type 0
Pack = Value → ℕ → List ℕ → Option (List ℕ)

abbrev pub Env : Type 0
Env = List (Text × Pack)

unfoldable pub get_function : Text → Env → Option Pack
get_function s [] = none
get_function s ((n, f) ∷ env) = if same n s then some f else get_function s env

unfoldable pub call_function : Env → Text → Pack
unfolding get_function
call_function env name v k buf = do f ← get_function name env; f v k buf

-- `for (i = k; i < k + left; ++i)`; `exec` sees to it that the `int32_t` does not overflow.
unfoldable pub repeat : ℕ → ℕ → (ℕ → List ℕ → Option (List ℕ)) → List ℕ → Option (List ℕ)
repeat zero k f buf = some buf
repeat (suc left) k f buf = do buf' ← f k buf; repeat left (suc k) f buf'

-- What `data` points to, and the local copies
pub record Frame : Type 0 where
  pub arg : Members
  pub locals : Members

unfoldable pub read : Frame → Vars → Place → Option Value
unfolding get_member index_all
read fr vars p = do
  v ← get_member p.name (if p.local then fr.locals else fr.arg)
  index_all vars p.indices v

module _ (env : Env) (fr : Frame) (base : ℕ) where
  unfoldable pub exec : Vars → Stmt → List ℕ → Option (List ℕ)
  unfolding read eval_offset int_value call_function repeat
  exec vars (call f p o) buf = do
    v ← read fr vars p
    k ← eval_offset vars o
    call_function env f v (base + k) buf
  exec vars (loop i n s) buf = do
    rounds ← int_value n
    repeat rounds 0 (λ k b. exec ((i, k) ∷ vars) s b) buf

  unfoldable pub exec_all : List Stmt → List ℕ → Option (List ℕ)
  unfolding exec
  exec_all [] buf = some buf
  exec_all (s ∷ ss) buf = do buf' ← exec [] s buf; exec_all ss buf'

-- `buffer[i] = (uint8_t)(raw_data >> shift)` for each shift
unfoldable pub store_bytes : ℕ → ℕ → List ℕ → List ℕ → Option (List ℕ)
unfolding store
store_bytes w i [] buf = some buf
store_bytes w i (s ∷ ss) buf = do
  buf' ← store i (w / 2 ^ s % 256) buf
  store_bytes w (suc i) ss buf'

-- `memcpy(_f, &data->f, sizeof(_f))` for each aliased field
unfoldable pub copy_locals : List (Text × Text × Text) → Members → Option Members
unfolding get_member
copy_locals [] ms = some last
copy_locals ((n, type, declared) ∷ ls) ms = do
  v ← get_member n ms
  rest ← copy_locals ls ms
  some (member n v rest)

-- The integers of a specification have other names in C, such as `uint8_t`.
unfoldable pub is_c_type : Text → Bool
unfolding contains
is_c_type s = not (
    contains
      (codes "uint8"
        ∷ codes "uint16"
        ∷ codes "uint32"
        ∷ codes "uint64"
        ∷ codes "int8"
        ∷ codes "int16"
        ∷ codes "int32"
        ∷ codes "int64"
        ∷ [])
      s)

-- The function that a statement calls, the object that it is called on, and the bounds of the loops
-- around the call
abbrev pub callee : Stmt → Text
callee (call f p o) = f
callee (loop i n s) = callee s

abbrev pub target : Stmt → Place
target (call f p o) = p
target (loop i n s) = target s

abbrev pub bounds : Stmt → List ℕ
bounds (call f p o) = []
bounds (loop i n s) = n ∷ bounds s

unfoldable pub find_local : Text → List (Text × Text × Text) → Option (Text × Text)
find_local s [] = none
find_local s ((n, type, declared) ∷ ls) =
    if same n s then some (type, declared) else find_local s ls

-- Whether C takes a call on a local copy: the copy is declared with a type that C knows, which is the
-- one that the function's parameter points to, and with the dimensions of the array that the loops
-- go over.
unfoldable pub takes : Stmt → Option (Text × Text) → Bool
unfolding is_c_type snake_to_camel bracketed
takes s none = false
takes s (some (type, declared)) =
    is_c_type type
    && same (callee s) (codes "SsPack" ++ snake_to_camel type)
    && same declared (codes "_" ++ (target s).name ++ bracketed (bounds s))

unfoldable pub compiles : List (Text × Text × Text) → List Stmt → Bool
unfolding takes find_local
compiles locals [] = true
compiles locals (s ∷ ss) =
    (if (target s).local then takes s (find_local (target s).name locals) else true)
    && compiles locals ss

-- A body that does not compile is a fault.
unfoldable pub run_body : Env → Body → Members → ℕ → List ℕ → Option (List ℕ)
unfolding copy_locals exec_all compiles
run_body env body ms k buf =
    if compiles body.locals body.statements
    then (copy_locals body.locals ms >>= λ locals.
        exec_all env (record { arg = ms; locals = locals }) k body.statements buf)
    else none

-- `data->ss_header.uid = uid; data->ss_header.len = len`, to members of 32 and 16 bits
unfoldable pub stamp : ℕ → ℕ → Members → Option Members
unfolding get_member set_member
stamp uid len ms = do
  header ← get_member (codes "ss_header") ms
  elim header [
    | block hs ↦ some (
        set_member (codes "ss_header")
          (block (
            set_member (codes "len") (word (len % 2 ^ 16))
              (set_member (codes "uid") (word (uid % 2 ^ 32)) hs)))
          ms)
    | _ ↦ none
  ]

unfoldable pub run_function : Env → Function → Pack
unfolding store_bytes call_function convert run_body stamp
run_function env (stores n ss) (word w) k buf = store_bytes w k ss buf
run_function env (widened n f) (word w) k buf =
    call_function env f (word (convert 32 (n * 8) w)) k buf
run_function env (fields body) (block ms) k buf = run_body env body ms k buf
run_function env (stamped u n body) (block ms) k buf = do
  ms' ← stamp u n ms
  run_body env body ms' k buf
run_function env _ _ k buf = none

-- The functions of the file, in the order of the types
unfoldable pub program : List SsType → Result (List (Text × Function))
unfolding pack
program [] = ok []
program (t ∷ ts) =
    Errors.◌>>=◌ (pack t) λ f. Errors.◌>>=◌ (program ts) λ ps. ok ((pack_function_name t, f) ∷ ps)

unfoldable pub load : List (Text × Function) → Env → Env
unfolding run_function
load [] env = env
load ((n, f) ∷ ps) env = load ps (env ++ (n, run_function env f) ∷ [])
