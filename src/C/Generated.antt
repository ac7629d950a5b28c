-- ===== src/C/Generated.antt =====
-- The packing functions of the C file that src/c_stuff_sack.py writes for a parsed specification.
use stuff_sack.Prelude.{ℕ, ◌≡◌, refl, List, [], ◌++◌, some, Option, length, All}
use stuff_sack.Prelude.Text.{Text, Distinct}
use stuff_sack.Errors.{ok}
use stuff_sack.Yaml.{Yaml}
use stuff_sack.Types.{SsType, root_name, packed_size}
use stuff_sack.Names.{pack_function_name}
use stuff_sack.Spec.Build.{find}
use stuff_sack.Spec.WellFormed.Types.{IsNamed, IsNamed-IsFieldType}
use stuff_sack.Spec.Parse.{ClassState, parse_yaml}
use stuff_sack.Spec.Parsed.{parse_yaml-IsParsed}
use stuff_sack.C.Syntax.{Function}
use stuff_sack.C.Memory.{Value}
use stuff_sack.C.Run.{call_function, program, load}
use stuff_sack.C.Run.Spec.{IsSupported, HasType, encode}
use stuff_sack.C.Run.Files.{function_names, program-Callable}

-- When a specification is parsed, the packing functions of its types have different names, no
-- aliased field has an integer type, no struct or message has an array of 2^31 elements or takes
-- 2^31 bytes, and the C file is generated, the function of each of the types, called on an object
-- of that type, replaces `packed_size` bytes at the buffer's place by the encoding of the object
-- and leaves the bytes around them.
pub generated-packs :
    (yaml : Yaml) (tag : Option Text) (types : List SsType) (state' : ClassState)
    (ps : List (Text × Function)) (t : SsType) (v : Value) (pre old post : List ℕ)
    → parse_yaml yaml tag ≡ ok (types, state')
    → Distinct (function_names types)
    → All IsSupported types
    → program types ≡ ok ps
    → find (root_name t) types ≡ some t
    → IsNamed t
    → HasType t v
    → length old ≡ packed_size t
    → (length (encode t v) ≡ packed_size t)
      × (call_function (load ps []) (pack_function_name t) v (length pre) (pre ++ (old ++ post))
          ≡ some (pre ++ (encode t v ++ post)))
generated-packs yaml tag types state' ps t v pre old post h distinct ranges made found named fits
      sized =
    let parsed = parse_yaml-IsParsed yaml tag state' types h in
    let callable = program-Callable types ps parsed.valid ranges distinct made in
    let (length_eq, write) = callable t named (IsNamed-IsFieldType types t named found) v fits in
    (length_eq, write (length pre) pre old post refl sized)
