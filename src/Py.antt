-- ===== src/Py.antt =====
-- The classes that src/py_stuff_sack.py makes, over the functions of the C library.
pub mod Enums
pub mod Messages
pub mod Library
pub mod Logger
mod Tests
use stuff_sack.Prelude.{
  ℕ, Bool, true, false, List, [], ◌∷◌, Option, none, some, if◌then◌else◌, ◌==◌, length, get_elem?,
}
use stuff_sack.Prelude.Text.{Text, codes, same}
use stuff_sack.Prelude.Int.{ℤ, pos, negsuc}
use stuff_sack.Types.{EnumValue}
use stuff_sack.C.Memory.{Value}

-- `cls._values_.get(name)` with `{v.name: v.value for v in t.values}`: of equal keys the last counts.
unfoldable pub value_of : Text → List EnumValue → Option ℕ
value_of name [] = none
value_of name (v ∷ vs) = elim (value_of name vs) [
  | some n ↦ some n
  | none ↦ if same v.name name then some v.value else none
]

-- `cls._rev_values_.get(n)` with `{v: k for k, v in values.items()}`
unfoldable pub name_of : ℕ → List EnumValue → Option Text
name_of n [] = none
name_of n (v ∷ vs) = elim (name_of n vs) [
  | some s ↦ some s
  | none ↦ if v.value == n then some v.name else none
]

-- `EnumMixin.name`, of an enum whose `value` is `z`
unfoldable pub enum_name : ℤ → List EnumValue → Text
unfolding name_of
enum_name (pos n) vs = elim (name_of n vs) [ some s ↦ s | none ↦ codes "InvalidEnumValue" ]
enum_name (negsuc n) vs = codes "InvalidEnumValue"

-- `EnumMixin.is_valid`, and `_EnumType.__contains__` of an integer
unfoldable pub is_valid : ℤ → List EnumValue → Bool
unfolding name_of
is_valid (pos n) vs = elim (name_of n vs) [ some s ↦ true | none ↦ false ]
is_valid (negsuc n) vs = false

-- `_EnumType.__contains__` of a string
unfoldable pub contains_name : Text → List EnumValue → Bool
unfolding value_of
contains_name name vs = elim (value_of name vs) [ some n ↦ true | none ↦ false ]

-- The exceptions of the library
pub data UnpackError : Type 0 where
  unknown_message incorrect_buffer_size invalid_uid invalid_len : UnpackError
  unknown_status : ℤ → UnpackError

pub data Unpacked : Type 0 where
  returned : Value → Unpacked
  raised : UnpackError → Unpacked

-- A message class: its `packed_size`, and `_unpack_func`, a function of the C library, from a buffer
-- to the status and the message.
pub record MessageClass : Type 0 where
  pub packed_size : ℕ
  pub unpack_func : List ℕ → ℤ × Value

-- `STATUS_LIST` and what follows the call in `_Message.unpack`
unfoldable pub check_status : ℤ → Value → Unpacked
check_status (pos n) msg =
    if n == 0
    then returned msg
    else if n == 1
    then raised invalid_uid
    else if n == 2
    then raised invalid_len
    else raised (unknown_status (pos n))
check_status (negsuc n) msg = raised (unknown_status (negsuc n))

-- `_Message.unpack`
unfoldable pub unpack : MessageClass → List ℕ → Unpacked
unfolding check_status
unpack cls buf =
    if length buf == cls.packed_size
    then (let (status, msg) = cls.unpack_func buf in check_status status msg)
    else raised incorrect_buffer_size

-- `msg_list[msg_type]`, or none where `unpack_message` tests `msg_type < 0 or msg_type >= len(msg_list)`
unfoldable pub class_at : ℤ → List MessageClass → Option MessageClass
class_at (pos i) msg_list = get_elem? msg_list i
class_at (negsuc n) msg_list = none

-- `unpack_message`, with `ss_lib.SsInspectHeader` and `msg_list`
unfoldable pub unpack_message : (List ℕ → ℤ) → List MessageClass → List ℕ → Unpacked
unfolding class_at unpack
unpack_message inspect_header msg_list buf = elim (class_at (inspect_header buf) msg_list) [
  | none ↦ raised unknown_message
  | some cls ↦ unpack cls buf
]
