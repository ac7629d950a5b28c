-- ===== src/Cc/Run.antt =====
-- What the generated C++ methods do. `none` is a fault, as in the C code.
use stuff_sack.Prelude.{ℕ, zero, List, [], ◌∷◌, Option, some, ltb, ◌==◌, if◌then◌else◌, suc}
use stuff_sack.Prelude.Text.{codes}
use stuff_sack.Types.{SsType, struct, message, array, Fields, nil, field}
use stuff_sack.C.Memory.{
  Value, word, items, block, Values, stop, more, Members, last, member, ◌>>=◌, get_member,
  set_member,
}
use stuff_sack.C.Run
use stuff_sack.C.Run.{call_function, stamp}
use stuff_sack.C.Unpack.Run.{Env, get_function, header_word}
use stuff_sack.C.Inspect.{inspect_header}
use stuff_sack.Cc.{Methods}

-- `Status`
pub data Status : Type 0 where
  k_success k_invalid_uid k_invalid_len : Status

-- `Pack(uint8_t *)`: the buffer and the message after the call
unfoldable pub pack_method : Run.Env → Methods → Members → ℕ → List ℕ → Option (List ℕ × Members)
unfolding stamp call_function
pack_method env m ms k buf = do
  ms' ← stamp m.k_uid m.k_packed_size ms
  buf' ← call_function env m.pack_function (block ms') k buf
  some (buf', ms')

abbrev pub zero_bytes : ℕ → List ℕ
zero_bytes zero = []
zero_bytes (suc n) = 0 ∷ zero_bytes n

-- `Pack()`, which allocates an array of zeros
unfoldable pub pack_new : Run.Env → Methods → Members → Option (List ℕ × Members)
unfolding pack_method
pack_new env m ms = pack_method env m ms 0 (zero_bytes m.k_packed_size)

-- `Unpack` behind the call for the header
unfoldable pub check_unpack : Env → Methods → List ℕ → ℕ → Members → Option (Status × Value)
unfolding get_function header_word
check_unpack env m buf k ms = do
  got_uid ← header_word (codes "uid") ms
  got_len ← header_word (codes "len") ms
  if got_uid == m.k_uid
      then if got_len == m.k_packed_size
        then (get_function m.unpack_function env >>= λ g.
            g buf k (block ms) >>= λ r. some (k_success, r.1))
        else some (k_invalid_len, block ms)
      else some (k_invalid_uid, block ms)

-- `Unpack`: the status and the message after the call
unfoldable pub unpack_method : Env → Methods → List ℕ → ℕ → Members → Option (Status × Value)
unfolding get_function check_unpack
unpack_method env m buf k ms = do
  old ← get_member (codes "ss_header") ms
  g ← get_function m.header_unpack env
  r ← g buf k old
  check_unpack env m buf k (set_member (codes "ss_header") r.1 ms)

-- `T{}`: every member is zero.
abbrev pub copies : ℕ → Value → Values
copies zero v = stop
copies (suc n) v = more v (copies n v)

unfoldable mutual
  pub zero_value : SsType → Value
  zero_value (struct n d fs) = block (zero_members fs)
  zero_value (message n d fs) = block (zero_members fs)
  zero_value (array t n) = items (copies n (zero_value t))
  zero_value _ = word 0

  pub zero_members : Fields → Members
  zero_members nil = last
  zero_members (field n t d a fs) = member n (zero_value t) (zero_members fs)

-- The returns of `UnpackNew`: a new message unless the status is kSuccess
unfoldable pub fresh : SsType → Status × Value → Option (Value × Status)
unfolding zero_value
fresh t (k_success, v) = some (v, k_success)
fresh t (k_invalid_uid, v) = some (zero_value t, k_invalid_uid)
fresh t (k_invalid_len, v) = some (zero_value t, k_invalid_len)

-- `UnpackNew`; `blank` is the local `data` before it is written to.
unfoldable pub unpack_new : Env → Methods → SsType → Members → List ℕ → Option (Value × Status)
unfolding unpack_method fresh
unpack_new env m t blank buf = do r ← unpack_method env m buf 0 blank; fresh t r

-- `AnyMessage`: nothing, or a message at its place among the messages
pub data AnyMessage : Type 0 where
  monostate : AnyMessage
  held : ℕ → Value → AnyMessage

-- A message that becomes an `AnyMessage`
abbrev pub hold : ℕ → Value × Status → Option (AnyMessage × Status)
hold i (v, status) = some (held i v, status)

-- A message of the specification as `UnpackMessage` needs it: its type, its methods and the local
-- object of `UnpackNew`
pub record Class : Type 0 where
  pub type : SsType
  pub methods : Methods
  pub blank : Members

-- The branches of `UnpackMessage`, from the message at place `i`
unfoldable pub unpack_branches :
    Env → ℕ → List Class → ℕ → List ℕ → ℕ → Option (AnyMessage × Status)
unfolding unpack_new
unpack_branches env i [] msg_type buf len = some (monostate, k_invalid_uid)
unpack_branches env i (c ∷ cs) msg_type buf len =
    let rest = unpack_branches env (suc i) cs msg_type buf len in
    if msg_type == i
    then if len == c.methods.k_packed_size
      then (unpack_new env c.methods c.type c.blank buf >>= hold i)
      else some (monostate, k_invalid_len)
    else rest

-- `UnpackMessage`; `header` is the local of `InspectHeader` before it is written to.
unfoldable pub unpack_message :
    Env → List SsType → List Class → Value → List ℕ → ℕ → Option (AnyMessage × Status)
unfolding inspect_header unpack_branches
unpack_message env all_types classes header buf len =
    if ltb len 6
    then some (monostate, k_invalid_len)
    else (inspect_header env all_types header buf 0 >>= λ msg_type.
        unpack_branches env 0 classes msg_type buf len)
