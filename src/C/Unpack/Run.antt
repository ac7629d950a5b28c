-- ===== src/C/Unpack/Run.antt =====
-- What the generated unpacking functions do. `none` is a fault: a read behind the end of the
-- buffer, or of a member that is not there.
use Prim.Native.Nat.{bit_or}
use stuff_sack.Prelude.{
  Bool, true, false, ℕ, zero, suc, ◌+◌, ◌*◌, ◌%◌, ◌^◌, List, [], ◌∷◌, ◌++◌, Option, none, some,
  if◌then◌else◌, ◌==◌, get_elem?,
}
use stuff_sack.Prelude.Text.{Text, codes, same}
use stuff_sack.Errors
use stuff_sack.Errors.{Result, ok}
use stuff_sack.Types.{SsType}
use stuff_sack.Names.{unpack_function_name}
use stuff_sack.C.Syntax.{Place, Stmt, call, loop}
use stuff_sack.C.Memory.{
  Value, word, items, block, Values, stop, more, Members, last, member, ◌>>=◌, get_member,
  set_member, get_index, Vars, get_var, index_all, eval_offset, int_value, convert,
}
use stuff_sack.C.Unpack.{Body, Function, loads, narrowed, fields, checked, unpack}

-- `SsStatus`; functions that return nothing are `success`.
pub data SsStatus : Type 0 where
  success invalid_uid invalid_len : SsStatus

-- A function from the buffer, the place that the pointer into it has and the object that `data`
-- points to, to the status and the object after the call.
abbrev pub Unpack : Type 0
Unpack = List ℕ → ℕ → Value → Option (SsStatus × Value)

abbrev pub Env : Type 0
Env = List (Text × Unpack)

unfoldable pub get_function : Text → Env → Option Unpack
get_function s [] = none
get_function s ((n, f) ∷ env) = if same n s then some f else get_function s env

-- Assignment to an element
unfoldable pub set_index : ℕ → Value → Values → Option Values
set_index i w stop = none
set_index zero w (more v vs) = some (more w vs)
set_index (suc i) w (more v vs) = do vs' ← set_index i w vs; some (more v vs')

-- Assignment to `v[i][j]`
unfoldable pub set_index_all : Vars → List ℕ → Value → Value → Option Value
unfolding get_var get_index set_index
set_index_all vars [] w v = some w
set_index_all vars (i ∷ is) w (items vs) = do
  k ← get_var i vars
  v ← get_index k vs
  v' ← set_index_all vars is w v
  vs' ← set_index k v' vs
  some (items vs')
set_index_all vars (i ∷ is) w _ = none

-- The members of `data`, and the local copies
pub record Frame : Type 0 where
  pub arg : Members
  pub locals : Members

-- The members that a place is in: those of `data`, or the local copies
abbrev pub side : Bool → Frame → Members
side true fr = fr.locals
side false fr = fr.arg

abbrev pub with_side : Bool → Frame → Members → Frame
with_side true fr ms = record fr { locals = ms }
with_side false fr ms = record fr { arg = ms }

unfoldable pub read : Frame → Vars → Place → Option Value
unfolding get_member index_all
read fr vars p = do v ← get_member p.name (side p.local fr); index_all vars p.indices v

unfoldable pub write : Frame → Vars → Place → Value → Option Frame
unfolding get_member set_index_all set_member
write fr vars p w = do
  v ← get_member p.name (side p.local fr)
  v' ← set_index_all vars p.indices w v
  some (with_side p.local fr (set_member p.name v' (side p.local fr)))

-- `for (i = k; i < k + left; ++i)`; `exec` sees to it that the `int32_t` does not overflow.
unfoldable pub repeat : ℕ → ℕ → (ℕ → Frame → Option Frame) → Frame → Option Frame
repeat zero k f fr = some fr
repeat (suc left) k f fr = do fr' ← f k fr; repeat left (suc k) f fr'

module _ (env : Env) (buf : List ℕ) (base : ℕ) where
  unfoldable pub exec : Vars → Stmt → Frame → Option Frame
  unfolding read write eval_offset int_value get_function repeat
  exec vars (call f p o) fr = do
    v ← read fr vars p
    k ← eval_offset vars o
    g ← get_function f env
    r ← g buf (base + k) v
    write fr vars p r.1
  exec vars (loop i n s) fr = do
    rounds ← int_value n
    repeat rounds 0 (λ k fr. exec ((i, k) ∷ vars) s fr) fr

  unfoldable pub exec_all : List Stmt → Frame → Option Frame
  unfolding exec
  exec_all [] fr = some fr
  exec_all (s ∷ ss) fr = do fr' ← exec [] s fr; exec_all ss fr'

-- The local copies before anything is written to them: of the shape of the members
unfoldable pub declare_locals : List (Text × Text × Text) → Members → Option Members
unfolding get_member
declare_locals [] ms = some last
declare_locals ((n, type, declared) ∷ ls) ms = do
  v ← get_member n ms
  rest ← declare_locals ls ms
  some (member n v rest)

-- `memcpy((uint8_t *)&data->f, &_f, sizeof(data->f))` for each aliased field
unfoldable pub copy_back : List Text → Members → Members → Option Members
unfolding get_member set_member
copy_back [] locals ms = some ms
copy_back (n ∷ ns) locals ms = do v ← get_member n locals; copy_back ns locals (set_member n v ms)

unfoldable pub run_body : Env → Body → List ℕ → ℕ → Members → Option Members
unfolding declare_locals exec_all copy_back
run_body env body buf k ms = do
  locals ← declare_locals body.locals ms
  fr ← exec_all env buf k body.statements (record { arg = ms; locals = locals })
  copy_back body.copies fr.locals fr.arg

-- `raw_data |= (uint<bits>_t)buffer[i] << shift` for each shift, on `bits` bits
unfoldable pub load_bytes : ℕ → List ℕ → ℕ → List ℕ → ℕ → Option ℕ
load_bytes bits buf k [] raw = some raw
load_bytes bits buf k (s ∷ ss) raw = do
  b ← get_elem? buf k
  load_bytes bits buf (suc k) ss (bit_or raw (b * 2 ^ s) % 2 ^ bits)

unfoldable pub get_word : Value → Option ℕ
get_word (word w) = some w
get_word _ = none

unfoldable pub get_block : Value → Option Members
get_block (block ms) = some ms
get_block _ = none

-- `data->ss_header.<name>`
unfoldable pub header_word : Text → Members → Option ℕ
unfolding get_member get_block get_word
header_word name ms = do
  header ← get_member (codes "ss_header") ms
  hs ← get_block header
  v ← get_member name hs
  get_word v

-- What `message_unpack` does behind the call for the header: the two checks, and the body.
unfoldable pub check_header : Env → ℕ → ℕ → Body → List ℕ → ℕ → Members → Option (SsStatus × Value)
unfolding header_word run_body
check_header env u len body buf k ms = do
  got_uid ← header_word (codes "uid") ms
  got_len ← header_word (codes "len") ms
  if got_uid == u
      then if got_len == len
        then (run_body env body buf k ms >>= λ ms'. some (success, block ms'))
        else some (invalid_len, block ms)
      else some (invalid_uid, block ms)

unfoldable pub run_function : Env → Function → Unpack
unfolding load_bytes get_function convert check_header
run_function env (loads n ss) buf k (word w) = do
  raw ← load_bytes (n * 8) buf k ss 0
  some (success, word raw)
run_function env (narrowed n f) buf k (word w) = do
  g ← get_function f env
  r ← g buf k (word 0)
  raw ← get_word r.1
  some (success, word (convert (n * 8) 32 raw))
run_function env (fields body) buf k (block ms) = do
  ms' ← run_body env body buf k ms
  some (success, block ms')
run_function env (checked header u len body) buf k (block ms) = do
  old ← get_member (codes "ss_header") ms
  g ← get_function header env
  r ← g buf k old
  check_header env u len body buf k (set_member (codes "ss_header") r.1 ms)
run_function env _ buf k _ = none

-- The functions of the file, in the order of the types
unfoldable pub program : List SsType → Result (List (Text × Function))
unfolding unpack
program [] = ok []
program (t ∷ ts) =
    Errors.◌>>=◌ (unpack t)
      λ f. Errors.◌>>=◌ (program ts) λ ps. ok ((unpack_function_name t, f) ∷ ps)

unfoldable pub load : List (Text × Function) → Env → Env
unfolding run_function
load [] env = env
load ((n, f) ∷ ps) env = load ps (env ++ (n, run_function env f) ∷ [])
