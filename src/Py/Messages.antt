-- ===== src/Py/Messages.antt =====
-- What `unpack_message` returns and raises.
use stuff_sack.Prelude.{
  ℕ, ◌≡◌, ◌↔◌, refl, List, some, inl, inr, arith, length, get_elem?, Option-cases,
}
use stuff_sack.Prelude.Int.{ℤ, pos, negsuc}
use stuff_sack.C.Memory.{Value}
use stuff_sack.Py.{returned, MessageClass, check_status, unpack, class_at, unpack_message}

check_status-returned :
    (status : ℤ) (msg v : Value)
    → (check_status status msg ≡ returned v) ↔ ((status ≡ pos 0) × (msg ≡ v))
unfolding check_status
check_status-returned (pos n) msg v = (λ h. ground arith, λ h. ground arith)
check_status-returned (negsuc n) msg v = (λ h. absurd (ground arith), λ h. absurd (ground arith))

unpack-returned :
    (cls : MessageClass) (buf : List ℕ) (v : Value)
    → (unpack cls buf ≡ returned v) ↔ (
        (length buf ≡ cls.packed_size)
        × ((cls.unpack_func buf).0 ≡ pos 0)
        × ((cls.unpack_func buf).1 ≡ v))
unfolding unpack
unpack-returned cls buf v =
    let status = check_status-returned (cls.unpack_func buf).0 (cls.unpack_func buf).1 v in
    (λ h. ground arith, λ h. ground arith)

class_at-some :
    (z : ℤ) (msg_list : List MessageClass) (cls : MessageClass)
    → class_at z msg_list ≡ some cls
    → (i : ℕ) × (z ≡ pos i) × (get_elem? msg_list i ≡ some cls)
unfolding class_at
class_at-some (pos i) msg_list cls h = (i, refl, h)
class_at-some (negsuc n) msg_list cls h = absurd (ground arith)

-- `unpack_message` returns a message exactly when `SsInspectHeader` finds the index of a message
-- class, the buffer has that class's packed size, and the class's unpacking function returns that
-- message with the status 0.
pub unpack_message_iff :
    (inspect_header : List ℕ → ℤ) (msg_list : List MessageClass) (buf : List ℕ) (v : Value)
    → (unpack_message inspect_header msg_list buf ≡ returned v) ↔ (
        (i : ℕ) × (cls : MessageClass) × (inspect_header buf ≡ pos i)
        × (get_elem? msg_list i ≡ some cls)
        × (length buf ≡ cls.packed_size)
        × ((cls.unpack_func buf).0 ≡ pos 0)
        × ((cls.unpack_func buf).1 ≡ v))
unfolding unpack_message class_at
unpack_message_iff inspect_header msg_list buf v = (
  λ h. elim (Option-cases (class_at (inspect_header buf) msg_list)) [
    | inl e ↦ absurd (ground arith)
    | inr (cls, e) ↦
        let (i, found, at_i) = class_at-some (inspect_header buf) msg_list cls e in
        let (sized, status, same_v) = (unpack-returned cls buf v).0 (ground arith) in
        (i, cls, found, at_i, sized, status, same_v)
  ],
  λ (i, cls, found, at_i, sized, status, same_v).
      let e : class_at (inspect_header buf) msg_list ≡ some cls = rw found at_i in
      rw (unpack_message, e) ((unpack-returned cls buf v).1 (sized, status, same_v)),
)
