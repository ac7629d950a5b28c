-- ===== src/Cc/Wire.antt =====
-- The C++ `Pack` of a message, and the packing function of the C file for the same specification.
use mathlib.Core.Path.{subst, subst₂}
use stuff_sack.Prelude.{
  ℕ, ◌≡◌, refl, ap, sym, ◌∙◌, List, [], ◌++◌, Option, none, some, arith, length, All,
}
use stuff_sack.Prelude.Text.{Text, codes, Distinct}
use stuff_sack.Errors
use stuff_sack.Errors.{ok}
use stuff_sack.Yaml.{Yaml}
use stuff_sack.Types.{SsType, message, Fields, field, uid, packed_size, root_name}
use stuff_sack.Names.{pack_function_name}
use stuff_sack.Spec.Build.{Registry, find}
use stuff_sack.Spec.WellFormed.{header_type}
use stuff_sack.Spec.WellFormed.Types.{find-All}
use stuff_sack.Spec.Parse.{ClassState, parse_yaml}
use stuff_sack.Spec.Parsed.{parse_yaml-IsParsed}
use stuff_sack.C.Syntax
use stuff_sack.C.Memory.{Value, block, Members, member, ◌>>=◌}
use stuff_sack.C.Run
use stuff_sack.C.Run.{Env, call_function, load, stamp}
use stuff_sack.C.Run.Spec.{IsSupported, HasType, HasFields, encode, encode_fields, big_endian}
use stuff_sack.C.Run.Calls.{Callable}
use stuff_sack.C.Run.Functions.{header_bytes, stamped_members, stamp-header}
use stuff_sack.C.Run.Files.{function_names, program-Callable}
use stuff_sack.C.Generated.{generated-packs}
use stuff_sack.C.Unpack
use stuff_sack.C.Unpack.{header_function}
use stuff_sack.C.Unpack.Exact.{HasEnums, HasFieldEnums, IsRegistry-HasEnums}
use stuff_sack.Cc.{Methods, message_methods, cc_source}
use stuff_sack.Cc.Run.{pack_method}
use stuff_sack.Cc.Flat.{flat, flat_fields, pack_function_name-flat, packed_size-flat, program-flat}
use stuff_sack.Cc.Flat.WellFormed.{
  flat_all, flat_all-Supported, find-flat, IsRegistry-flat, function_names-flat,
}
use stuff_sack.Cc.Flat.Bytes.{AreShared, members-AsFlat}

-- The methods that are written for a message
methods_of : SsType → Text → Methods
methods_of t header = record {
  pack_function = pack_function_name t;
  header_unpack = header;
  unpack_function = stuff_sack.Names.unpack_function_name t;
  k_uid = uid t;
  k_packed_size = packed_size t;
}

message_methods-ok :
    (t : SsType) (fs : Fields) (m : Methods)
    → message_methods t fs ≡ ok m
    → (header : Text) × (methods_of t header ≡ m)
unfolding message_methods methods_of
message_methods-ok t fs m h =
    let (header, made, h₁) = Errors.>>=-eq-ok (header_function fs) _ h in (header, cc)

module _ (env : Env) (types : Registry) (callable : Callable env (flat_all types)) (n : Text)
    (d : Option Text) (header : Text) (h : Value) (behind : Members) (pre room post : List ℕ) where
  plain-packs :
      (e : Option Text) (fs : Fields)
      → let t = message n d (field (codes "ss_header") header_type e none fs) in
        find n types ≡ some t
        → HasFieldEnums fs
        → HasType header_type h
        → HasFields fs behind
        → AreShared fs behind
        → length room ≡ packed_size t
        → pack_method env
            (methods_of t header)
            (member (codes "ss_header") h behind)
            (length pre)
            (pre ++ (room ++ post))
          ≡ some (
            pre ++ (encode t (block (member (codes "ss_header") h behind)) ++ post),
            stamped_members (uid t) (packed_size t) behind,
          )
  unfolding pack_method encode flat root_name methods_of
  plain-packs e fs found enums header_fits fits shared sized =
      let t = message n d (field (codes "ss_header") header_type e none fs) in
      let u = uid t in
      let len = packed_size t in
      let (has, bytes) = members-AsFlat fs behind enums fits shared in
      let (size, write) =
        callable (flat t) tt (find-flat n types t found) (block (stamped_members u len behind))
          (refl, (refl, omega arith, (refl, omega arith, tt)), has) in
      let written = write (length pre) pre room post refl (sized ∙ sym (packed_size-flat t)) in
      let same_bytes =
        header_bytes u len (encode_fields (flat_fields fs) behind)
        ∙ ap (λ bs. big_endian 4 u ++ big_endian 2 len ++ bs) bytes in
      let stored =
        subst₂
          (λ (f : Text) (bs : List ℕ).
            call_function env f (block (stamped_members u len behind)) (length pre)
              (pre ++ (room ++ post))
            ≡ some (pre ++ (bs ++ post)))
          (pack_function_name-flat t) same_bytes written in
      rw (stamp-header u len (codes "ss_header") h behind refl header_fits)
        (ap (λ o. o >>= λ buf. some (buf, stamped_members u len behind)) stored)

module _ (yaml : Yaml) (tag : Option Text) (types : List SsType) (state' : ClassState)
    (cs ps : List (Text × Syntax.Function)) (us : List (Text × Unpack.Function))
    (parsed : parse_yaml yaml tag ≡ ok (types, state')) (distinct : Distinct (function_names types))
    (ranges : All IsSupported types) (c_packs : Run.program types ≡ ok cs)
    (cc_packs : cc_source types ≡ ok (ps, us)) where
  -- When a specification is parsed, the packing functions of its types have different names, no
  -- aliased field has an integer type, no struct or message has an array of 2^31 elements or takes
  -- 2^31 bytes, and the C and the C++ file are generated: for a message with its header in front,
  -- none of whose members is a message, and whose enums have values below 2^31 that the
  -- specification lists, `Pack` writes the bytes that the packing function of the C file writes. It
  -- leaves the message with the header that it was sent with.
  pub pack_method-as_c :
      (n : Text) (d : Option Text) (e : Option Text) (fs : Fields) (methods : Methods) (h : Value)
      (behind : Members) (pre room post : List ℕ)
      → let whole = field (codes "ss_header") header_type e none fs in
        let t = message n d whole in
        let ms = member (codes "ss_header") h behind in
        find n types ≡ some t
        → message_methods t whole ≡ ok methods
        → HasType header_type h
        → HasFields fs behind
        → AreShared fs behind
        → length room ≡ packed_size t
        → pack_method (load ps []) methods ms (length pre) (pre ++ (room ++ post)) ≡ (
            call_function
              (load cs [])
              (pack_function_name t)
              (block ms)
              (length pre)
              (pre ++ (room ++ post))
            >>= λ buf. some (buf, stamped_members (uid t) (packed_size t) behind))
  unfolding root_name
  pack_method-as_c n d e fs methods h behind pre room post found made header_fits fits shared
        sized =
      let whole = field (codes "ss_header") header_type e none fs in
      let t = message n d whole in
      let valid = (parse_yaml-IsParsed yaml tag state' types parsed).valid in
      let enums = find-All HasEnums n types t (IsRegistry-HasEnums types valid) found in
      let callable =
        program-Callable (flat_all types) ps (IsRegistry-flat types valid)
          (flat_all-Supported types ranges)
          (subst Distinct (sym (function_names-flat types)) distinct)
          (program-flat types ps us cc_packs) in
      let (header, is_methods) = message_methods-ok t whole methods made in
      let (size, packed) =
        generated-packs yaml tag types state' cs t (block (member (codes "ss_header") h behind)) pre
          room post parsed distinct ranges c_packs found tt (refl, header_fits, fits) sized in
      rw (packed, ← is_methods)
        (plain-packs (load ps []) types callable n d header h behind pre room post e fs found
          enums.1 header_fits fits shared sized)
