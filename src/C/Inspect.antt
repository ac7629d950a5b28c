-- ===== src/C/Inspect.antt =====
-- `SsInspectHeader` of a generated C file, from src/c_stuff_sack.py.
use stuff_sack.Prelude.{
  ℕ, ◌^◌, ◌≡◌, ◌<◌, refl, ap, ◌∙◌, List, [], ◌++◌, some, Option, length, All, get_elem?, arith,
}
use stuff_sack.Prelude.Text.{Text, codes, Distinct, same}
use stuff_sack.Errors.{ok}
use stuff_sack.Yaml.{Yaml}
use stuff_sack.Types.{
  SsType, message, Fields, packed_size, uid, root_name, type_name, bracketed, all_lengths,
}
use stuff_sack.Types.Uids.{uid-lt}
use stuff_sack.Names.{
  snake_to_camel, split, capitalise, join, to_upper, is_lower, is_upper, pack_function_name,
  unpack_function_name,
}
use stuff_sack.Spec.Build.{find}
use stuff_sack.Spec.WellFormed.{header_type}
use stuff_sack.Spec.WellFormed.Lookup.{find-append_some}
use stuff_sack.Spec.Parse.{ClassState, parse_yaml}
use stuff_sack.Spec.Parsed.{IsParsed, parse_yaml-IsParsed, reset_types-Builtins}
use stuff_sack.C.Syntax
use stuff_sack.C.Memory.{Value, ◌>>=◌, >>=-eq-some, get_member}
use stuff_sack.C.Messages.{messages, get_ss_msg_type_from_uid, get_ss_msg_type_from_uid-finds}
use stuff_sack.C.Run
use stuff_sack.C.Run.{call_function}
use stuff_sack.C.Run.Spec.{HasType, encode}
use stuff_sack.C.Run.Files.{function_names}
use stuff_sack.C.Generated.{generated-packs}
use stuff_sack.C.Unpack
use stuff_sack.C.Unpack.Run.{Env, get_function, get_block, get_word, program, load}
use stuff_sack.C.Unpack.Spec.{received, header_value}
use stuff_sack.C.Unpack.Calls.{Holds, Callable}
use stuff_sack.C.Unpack.Functions.{IsUnpackable, unpackable-Supported}
use stuff_sack.C.Unpack.Headers.{header_bytes, header-split}
use stuff_sack.C.Unpack.Files.{unpack_names-Distinct, program-Callable}
use stuff_sack.C.Unpack.Located.{program-Located}
use stuff_sack.C.Unpack.Rejects.{encode-header, IsUnpackable-short, StartsWithHeader-Headed}

-- `SsInspectHeader`; `blank` is the local `header` before it is written to.
unfoldable pub inspect_header : Env → List SsType → Value → List ℕ → ℕ → Option ℕ
unfolding get_function get_block get_word get_member get_ss_msg_type_from_uid
inspect_header env all_types blank buf k = do
  g ← get_function (codes "SsUnpackSsHeader") env
  r ← g buf k blank
  hs ← get_block r.1
  v ← get_member (codes "uid") hs
  u ← get_word v
  some (get_ss_msg_type_from_uid all_types u)

header_function_name : unpack_function_name header_type ≡ codes "SsUnpackSsHeader"
unfolding unpack_function_name snake_to_camel split capitalise join type_name root_name bracketed
    all_lengths to_upper is_lower is_upper
header_function_name = refl

inspect_header-reads :
    (env : Env) (types : List SsType) (blank : Value) (buf rest : List ℕ) (k u len : ℕ)
    → Callable env types
    → find (codes "SsHeader") types ≡ some header_type
    → HasType header_type blank
    → u < 2 ^ 32
    → len < 2 ^ 16
    → Holds buf k (header_bytes u len rest)
    → inspect_header env types blank buf k ≡ some (get_ss_msg_type_from_uid types u)
unfolding inspect_header root_name received encode get_member get_block get_word same
inspect_header-reads env types blank buf rest k u len callable found fits u_lt len_lt h =
    let unpacks =
      callable header_type tt found (header_value u len)
        (refl, omega arith, (refl, omega arith, tt)) in
    let called = unpacks.1 blank buf k fits (header-split buf k u len rest h).0 in
    let (g, found', result) =
      >>=-eq-some (get_function (unpack_function_name header_type) env) _ called in
    rw (← header_function_name, found', result) refl

-- The header's type is in a parsed specification.
header-found :
    (yaml : Yaml) (types fresh : List SsType)
    → IsParsed yaml types fresh
    → find (codes "SsHeader") types ≡ some header_type
header-found yaml types fresh parsed = rw parsed.split (
    find-append_some (codes "SsHeader") fresh parsed.user_types header_type
      (reset_types-Builtins fresh parsed.reset).header)

module _ (yaml : Yaml) (tag : Option Text) (types : List SsType) (state' : ClassState)
    (ps : List (Text × Syntax.Function)) (us : List (Text × Unpack.Function))
    (parsed : parse_yaml yaml tag ≡ ok (types, state')) (distinct : Distinct (function_names types))
    (unpackable : All IsUnpackable types) (packs : Run.program types ≡ ok ps)
    (unpacks : program types ≡ ok us) where
  -- When a specification is parsed, the packing functions of its types have different names, both
  -- programs are generated, no field but a message's first has the type of the header, every
  -- message is shorter than 65536 bytes, no struct takes 2^31 bytes, no array has 2^31 elements and
  -- no aliased field has an integer type: SsInspectHeader finds, in what the packing function of a
  -- message writes, the place of the message among the messages, whatever its local header held.
  pub inspect_header-packed :
      (n : Text) (d : Option Text) (fs : Fields) (i : ℕ) (v blank : Value) (pre room post : List ℕ)
      → let t = message n d fs in
        find n types ≡ some t
        → get_elem? (messages types) i ≡ some t
        → HasType t v
        → HasType header_type blank
        → length room ≡ packed_size t
        → (call_function
              (Run.load ps [])
              (pack_function_name t)
              v
              (length pre)
              (pre ++ (room ++ post))
            >>= λ buf. inspect_header (load us []) types blank buf (length pre))
          ≡ some i
  unfolding root_name
  inspect_header-packed n d fs i v blank pre room post found at_i fits blank_fits sized =
      let t = message n d fs in
      let is_parsed = parse_yaml-IsParsed yaml tag state' types parsed in
      let names = unpack_names-Distinct types distinct in
      let (size, packed) =
        generated-packs yaml tag types state' ps t v pre room post parsed distinct
          (unpackable-Supported types unpackable) packs found tt fits sized in
      let from = program-Located types us t is_parsed.valid unpackable names unpacks found in
      let headed = StartsWithHeader-Headed from.before fs from.valid.1 from.valid.2 in
      let (rest, bytes) = encode-header n d fs v headed fits in
      let held : Holds (pre ++ (encode t v ++ post)) (length pre)
          (header_bytes (uid t) (packed_size t) rest) =
        record {
          pre = pre;
          post = post;
          whole = ap (λ bs. pre ++ (bs ++ post)) bytes;
          place = refl;
        } in
      let reads =
        inspect_header-reads (load us []) types blank _ rest (length pre) (uid t) (packed_size t)
          (program-Callable types us is_parsed.valid unpackable names unpacks)
          (header-found yaml types _ is_parsed) blank_fits (uid-lt t)
          (IsUnpackable-short n d fs headed from.plain) held in
      rw packed
        (reads ∙ ap some ((get_ss_msg_type_from_uid-finds yaml tag types state' parsed).0 i t at_i))
