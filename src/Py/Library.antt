-- ===== src/Py/Library.antt =====
-- The message classes of src/py_stuff_sack.py over the functions of the generated C library.
use mathlib.Core.Path.{subst}
use mathlib.Core.List.{append-nil}
use native.Mathlib.Nat.{one-le-pow}
use stuff_sack.Prelude.{
  ℕ, zero, suc, ◌^◌, ◌≡◌, ◌<◌, refl, ap, ◌∙◌, List, [], ◌∷◌, ◌++◌, Option, none, some, map, length,
  All, get_elem?, arith,
}
use stuff_sack.Prelude.Text.{Text, Distinct}
use stuff_sack.Prelude.Int.{ℤ, pos, negsuc}
use stuff_sack.Errors.{ok}
use stuff_sack.Yaml.{Yaml}
use stuff_sack.Types.{
  SsType, primitive, bitfield, enum, struct, message, array, Fields, nil, field, packed_size,
  root_name,
}
use stuff_sack.Names.{pack_function_name, unpack_function_name}
use stuff_sack.Spec.Build.{find}
use stuff_sack.Spec.WellFormed.{header_type}
use stuff_sack.Spec.Parse.{ClassState, parse_yaml}
use stuff_sack.C.Syntax
use stuff_sack.C.Memory.{Value, ◌>>=◌, count}
use stuff_sack.C.Messages.{messages}
use stuff_sack.C.Run
use stuff_sack.C.Run.{call_function}
use stuff_sack.C.Run.Spec.{HasType, HasFields, AllValues, encode}
use stuff_sack.C.Run.Files.{function_names}
use stuff_sack.C.Generated.{generated-packs}
use stuff_sack.C.Unpack
use stuff_sack.C.Unpack.Run.{SsStatus, success, invalid_uid, invalid_len, Env, program, load}
use stuff_sack.C.Unpack.Spec.{received}
use stuff_sack.C.Unpack.Functions.{IsUnpackable, unpackable-Supported}
use stuff_sack.C.Unpack.Rejects.{call_unpack}
use stuff_sack.C.RoundTrip.{unpacks-packed}
use stuff_sack.C.Inspect.{inspect_header, inspect_header-packed}
use stuff_sack.Cc.Run.{copies, zero_value, zero_members, zero_bytes}
use stuff_sack.Py.{returned, MessageClass, unpack_message}
use stuff_sack.Py.Messages.{unpack_message_iff}

-- The integers of `SsStatus`
unfoldable pub c_status : SsStatus → ℤ
c_status success = pos 0
c_status invalid_uid = pos 1
c_status invalid_len = pos 2

-- `_unpack_func` of a message, on a new object of its class, which is zero; a fault has no status
-- in C and is -1.
unfoldable pub library_unpack : Env → SsType → List ℕ → ℤ × Value
unfolding c_status zero_value
library_unpack env t buf = elim (call_unpack env (unpack_function_name t) buf 0 (zero_value t)) [
  | some r ↦ (c_status r.0, r.1)
  | none ↦ (negsuc 0, zero_value t)
]

-- `ss_lib.SsInspectHeader`
unfoldable pub library_inspect : Env → List SsType → Value → List ℕ → ℤ
unfolding inspect_header
library_inspect env all_types blank buf = elim (inspect_header env all_types blank buf 0) [
  | some i ↦ pos i
  | none ↦ negsuc 0
]

-- The classes that `get_globals` makes of the messages
unfoldable pub msg_list : Env → List SsType → List MessageClass
unfolding messages library_unpack packed_size
msg_list env all_types =
    map (λ t. record { packed_size = packed_size t; unpack_func = library_unpack env t })
      (messages all_types)

-- `_Message.pack`, into the zeros of `get_buffer`
unfoldable pub pack_message : Run.Env → SsType → Value → Option (List ℕ)
unfolding call_function packed_size
pack_message env t v = call_function env (pack_function_name t) v 0 (zero_bytes (packed_size t))

pow-positive : (b : ℕ) → 0 < 256 ^ b
pow-positive b = omega (arith, one-le-pow b 256 (omega arith))

copies-HasType :
    (P : Value → Type 0) (n : ℕ) (v : Value)
    → P v
    → (count (copies n v) ≡ n) × AllValues P (copies n v)
unfolding count
copies-HasType P zero v h = (refl, tt)
copies-HasType P (suc n) v h = let (len, all) = copies-HasType P n v h in (omega arith, (h, all))

mutual
  unfolding zero_value

  pub zero_value-HasType : (t : SsType) → HasType t (zero_value t)
  zero_value-HasType (primitive n b) = pow-positive b
  zero_value-HasType (bitfield n d fs b) = pow-positive b
  zero_value-HasType (enum n d vs b) = omega arith
  zero_value-HasType (struct n d fs) = zero_members-HasFields fs
  zero_value-HasType (message n d fs) = zero_members-HasFields fs
  zero_value-HasType (array t n) =
      copies-HasType (HasType t) n (zero_value t) (zero_value-HasType t)

  zero_members-HasFields : (fs : Fields) → HasFields fs (zero_members fs)
  zero_members-HasFields nil = tt
  zero_members-HasFields (field n t d a fs) =
      (refl, zero_value-HasType t, zero_members-HasFields fs)

get_elem?-map :
    {A : Type 0} {B : Type 0} (f : A → B) (xs : List A) (i : ℕ) (x : A)
    → get_elem? xs i ≡ some x
    → get_elem? (map f xs) i ≡ some (f x)
get_elem?-map f [] i x h = absurd (ground arith)
get_elem?-map f (y ∷ xs) zero x h = let e : y ≡ x = cc in ap (λ y. some (f y)) e
get_elem?-map f (y ∷ xs) (suc i) x h = get_elem?-map f xs i x h

length-zero_bytes : (n : ℕ) → length (zero_bytes n) ≡ n
length-zero_bytes zero = refl
length-zero_bytes (suc n) = omega (arith, length-zero_bytes n)

library_unpack-success :
    (env : Env) (t : SsType) (buf : List ℕ) (v : Value)
    → call_unpack env (unpack_function_name t) buf 0 (zero_value t) ≡ some (success, v)
    → library_unpack env t buf ≡ (pos 0, v)
unfolding library_unpack c_status
library_unpack-success env t buf v h = rw (h, library_unpack) refl

library_inspect-found :
    (env : Env) (types : List SsType) (blank : Value) (buf : List ℕ) (i : ℕ)
    → inspect_header env types blank buf 0 ≡ some i
    → library_inspect env types blank buf ≡ pos i
unfolding library_inspect
library_inspect-found env types blank buf i h = rw (h, library_inspect) refl

module _ (yaml : Yaml) (tag : Option Text) (types : List SsType) (state' : ClassState)
    (ps : List (Text × Syntax.Function)) (us : List (Text × Unpack.Function))
    (parsed : parse_yaml yaml tag ≡ ok (types, state')) (distinct : Distinct (function_names types))
    (unpackable : All IsUnpackable types) (packs : Run.program types ≡ ok ps)
    (unpacks : program types ≡ ok us) where
  -- When a specification is parsed, the packing functions of its types have different names, both
  -- programs are generated, no field but a message's first has the type of the header, every
  -- message is shorter than 65536 bytes, no struct takes 2^31 bytes, no array has 2^31 elements and
  -- no aliased field has an integer type: what the Python method `pack` of a message returns,
  -- `unpack_message` returns as a message, with the members that `received` says.
  pub unpack_message-packed :
      (n : Text) (d : Option Text) (fs : Fields) (i : ℕ) (v blank : Value)
      → let t = message n d fs in
        find n types ≡ some t
        → get_elem? (messages types) i ≡ some t
        → HasType t v
        → HasType header_type blank
        → (pack_message (Run.load ps []) t v >>= λ buf. some (
            unpack_message
              (library_inspect (load us []) types blank)
              (msg_list (load us []) types)
              buf))
          ≡ some (returned (received t v))
  unfolding root_name pack_message msg_list
  unpack_message-packed n d fs i v blank found at_i fits blank_fits =
      let t = message n d fs in
      let room = zero_bytes (packed_size t) in
      let sized = length-zero_bytes (packed_size t) in
      let buf = encode t v ++ [] in
      let (size, packed) =
        generated-packs yaml tag types state' ps t v [] room [] parsed distinct
          (unpackable-Supported types unpackable) packs found tt fits sized in
      let inspected : inspect_header (load us []) types blank buf 0 ≡ some i = rw packed at (
        inspect_header-packed yaml tag types state' ps us parsed distinct unpackable packs unpacks n
          d fs i v blank [] room [] found at_i fits blank_fits sized) in
      let unpacked : call_unpack (load us []) (unpack_function_name t) buf 0 (zero_value t)
          ≡ some (success, received t v) =
        rw packed at (
          unpacks-packed yaml tag types state' ps us parsed distinct unpackable packs unpacks t v
            (zero_value t) [] room [] found tt fits (zero_value-HasType t) sized) in
      let whole : length buf ≡ packed_size t = ap length (append-nil (encode t v)) ∙ size in
      let called = library_unpack-success (load us []) t buf (received t v) unpacked in
      let result =
        (unpack_message_iff (library_inspect (load us []) types blank) (msg_list (load us []) types)
            buf (received t v)).1
          (
            i,
            record { packed_size = packed_size t; unpack_func = library_unpack (load us []) t },
            library_inspect-found (load us []) types blank buf i inspected,
            get_elem?-map _ (messages types) i t at_i,
            whole,
            ap (λ r. r.0) called,
            ap (λ r. r.1) called,
          ) in
      let stored : pack_message (Run.load ps []) t v ≡ some buf =
        subst (λ bytes. call_function (Run.load ps []) (pack_function_name t) v 0 bytes ≡ some buf)
          (append-nil room) packed in
      rw stored (ap some result)
