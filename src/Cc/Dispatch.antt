-- ===== src/Cc/Dispatch.antt =====
-- `MessageDispatcher` of src/cc_stuff_sack.py.
use stuff_sack.Prelude.{ℕ, zero, suc, List, [], ◌∷◌, ◌++◌, Option, some, map}
use stuff_sack.Types.{SsType}
use stuff_sack.C.Memory.{Value, ◌>>=◌}
use stuff_sack.C.Unpack.Run.{Env}
use stuff_sack.Cc.Run.{
  Status, k_success, k_invalid_uid, k_invalid_len, AnyMessage, monostate, held, Class,
  unpack_message,
}

-- The vectors of callbacks, one for each message; a callback is known by a number.
abbrev pub Dispatcher : Type 0
Dispatcher = List (List ℕ)

-- `AddCallback<T>`, at the place of `T` among the messages
unfoldable pub add_callback : ℕ → ℕ → Dispatcher → Dispatcher
add_callback i func [] = []
add_callback zero func (fs ∷ d) = (fs ++ func ∷ []) ∷ d
add_callback (suc i) func (fs ∷ d) = fs ∷ add_callback i func d

unfoldable pub callbacks : Dispatcher → ℕ → List ℕ
callbacks [] i = []
callbacks (fs ∷ d) zero = fs
callbacks (fs ∷ d) (suc i) = callbacks d i

-- The visitor: the calls that it makes, in order, each with its argument
unfoldable pub visit : Dispatcher → AnyMessage → List (ℕ × Value)
unfolding callbacks
visit d monostate = []
visit d (held i v) = map (λ func. (func, v)) (callbacks d i)

-- `MessageDispatcher::Unpack`, with the calls of callbacks that it makes
unfoldable pub dispatch :
    Env
    → List SsType
    → List Class
    → Value
    → Dispatcher
    → List ℕ
    → ℕ
    → Option (Status × List (ℕ × Value))
unfolding unpack_message visit
dispatch env all_types classes header d buffer len = do
  r ← unpack_message env all_types classes header buffer len
  elim r.1 [
    | k_success ↦ some (k_success, visit d r.0)
    | k_invalid_uid ↦ some (k_invalid_uid, [])
    | k_invalid_len ↦ some (k_invalid_len, [])
  ]
