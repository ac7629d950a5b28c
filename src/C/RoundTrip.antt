-- ===== src/C/RoundTrip.antt =====
-- The packing and unpacking functions of one generated file, together.
use stuff_sack.Prelude.{
  ℕ, ◌≡◌, ◌≢◌, refl, ap, sym, ◌∙◌, List, [], ◌∷◌, ◌++◌, some, Option, length, All, arith, inl, inr,
  Bool-cases,
}
use stuff_sack.Prelude.Text.{Text, codes, Distinct, same}
use stuff_sack.Errors.{ok}
use stuff_sack.Yaml.{Yaml}
use stuff_sack.Types.{SsType, message, Fields, root_name, packed_size, uid}
use stuff_sack.Types.Uids.{uid-lt}
use stuff_sack.Names.{pack_function_name, unpack_function_name}
use stuff_sack.Spec.Build.{find}
use stuff_sack.Spec.WellFormed.Types.{IsNamed, IsNamed-IsFieldType, find-All}
use stuff_sack.Spec.Parse.{ClassState, parse_yaml}
use stuff_sack.Spec.Parsed.{UidsDiffer, parse_yaml-IsParsed}
use stuff_sack.C.Syntax
use stuff_sack.C.Memory.{Value, block, Members, member, ◌>>=◌}
use stuff_sack.C.Run
use stuff_sack.C.Run.{call_function}
use stuff_sack.C.Run.Spec.{HasType, encode}
use stuff_sack.C.Run.Files.{function_names}
use stuff_sack.C.Generated.{generated-packs}
use stuff_sack.C.Unpack
use stuff_sack.C.Unpack.Run.{success, invalid_uid, program, load}
use stuff_sack.C.Unpack.Spec.{received}
use stuff_sack.C.Unpack.Calls.{Holds}
use stuff_sack.C.Unpack.Functions.{IsUnpackable, unpackable-Supported}
use stuff_sack.C.Unpack.Headers.{header_bytes, with_header, check_header-other_uid}
use stuff_sack.C.Unpack.Exact.{HasEnums, IsListed, received-IsListed, IsRegistry-HasEnums}
use stuff_sack.C.Unpack.Files.{unpack_names-Distinct, program-Callable}
use stuff_sack.C.Unpack.Located.{Located, program-Located}
use stuff_sack.C.Unpack.Rejects.{
  call_unpack, message-Checks, encode-header, IsUnpackable-short, StartsWithHeader-Headed,
}

-- Two types that a registry finds and that have the same unique id are the same.
uid-injective :
    (ts : List SsType) (r s : Text) (t u : SsType)
    → UidsDiffer ts
    → find r ts ≡ some t
    → find s ts ≡ some u
    → uid t ≡ uid u
    → t ≡ u
unfolding find
uid-injective [] r s t u h ft fu e = absurd (ground arith)
uid-injective (x ∷ xs) r s t u (h, hs) ft fu e = elim (Bool-cases (same (root_name x) r)) [
  | inl here ↦
      let x_is_t : x ≡ t = ground arith in
      elim (Bool-cases (same (root_name x) s)) [
        | inl also ↦ sym x_is_t ∙ ground arith
        | inr later ↦
            absurd (find-All (λ u. uid x ≢ uid u) s xs u h (ground arith) (ap uid x_is_t ∙ e))
      ]
  | inr there ↦ elim (Bool-cases (same (root_name x) s)) [
    | inl here ↦
        let x_is_u : x ≡ u = ground arith in
        absurd (find-All (λ t. uid x ≢ uid t) r xs t h (ground arith) (ap uid x_is_u ∙ sym e))
    | inr later ↦ uid-injective xs r s t u hs (ground arith) (ground arith) e
  ]
]

module _ (yaml : Yaml) (tag : Option Text) (types : List SsType) (state' : ClassState)
    (ps : List (Text × Syntax.Function)) (us : List (Text × Unpack.Function))
    (parsed : parse_yaml yaml tag ≡ ok (types, state')) (distinct : Distinct (function_names types))
    (unpackable : All IsUnpackable types) (packs : Run.program types ≡ ok ps)
    (unpacks : program types ≡ ok us) where
  located : (t : SsType) → find (root_name t) types ≡ some t → Located (load us []) t
  located t found =
      program-Located types us t (parse_yaml-IsParsed yaml tag state' types parsed).valid unpackable
        (unpack_names-Distinct types distinct) unpacks found

  -- When a specification is parsed, the packing functions of its types have different names, both
  -- programs are generated, no field but a message's first has the type of the header, every
  -- message is shorter than 65536 bytes, no struct takes 2^31 bytes, no array has 2^31 elements and
  -- no aliased field has an integer type: what the packing function of a type writes for an object,
  -- with room for it at the place in the buffer, its unpacking function reads back with the status
  -- success. It leaves in any object of the type what `received` says, whatever was there before.
  pub unpacks-packed :
      (t : SsType) (v old : Value) (pre room post : List ℕ)
      → find (root_name t) types ≡ some t
      → IsNamed t
      → HasType t v
      → HasType t old
      → length room ≡ packed_size t
      → (call_function
            (Run.load ps [])
            (pack_function_name t)
            v
            (length pre)
            (pre ++ (room ++ post))
          >>= λ buf. call_unpack (load us []) (unpack_function_name t) buf (length pre) old)
        ≡ some (success, received t v)
  unpacks-packed t v old pre room post found named fits old_fits sized =
      let (size, packed) =
        generated-packs yaml tag types state' ps t v pre room post parsed distinct
          (unpackable-Supported types unpackable) packs found named fits sized in
      let valid = (parse_yaml-IsParsed yaml tag state' types parsed).valid in
      let callable =
        program-Callable types us valid unpackable (unpack_names-Distinct types distinct) unpacks in
      let (size', read) = callable t named (IsNamed-IsFieldType types t named found) v fits in
      rw packed (
        read old (pre ++ (encode t v ++ post)) (length pre) old_fits
          (record { pre = pre; post = post; whole = refl; place = refl }))

  -- Under the same conditions, an object whose enums have values that the specification lists, and
  -- whose messages have the header that they are sent with, comes back as it was packed.
  pub unpacks-packed_same :
      (t : SsType) (v old : Value) (pre room post : List ℕ)
      → find (root_name t) types ≡ some t
      → IsNamed t
      → HasType t v
      → HasType t old
      → IsListed t v
      → length room ≡ packed_size t
      → (call_function
            (Run.load ps [])
            (pack_function_name t)
            v
            (length pre)
            (pre ++ (room ++ post))
          >>= λ buf. call_unpack (load us []) (unpack_function_name t) buf (length pre) old)
        ≡ some (success, v)
  unpacks-packed_same t v old pre room post found named fits old_fits listed sized =
      let valid = (parse_yaml-IsParsed yaml tag state' types parsed).valid in
      let enums = find-All HasEnums (root_name t) types t (IsRegistry-HasEnums types valid) found in
      unpacks-packed t v old pre room post found named fits old_fits sized
      ∙ ap (λ w. some (success, w)) (received-IsListed t v enums fits listed)

  -- Under the same conditions, the unpacking function of another message of the specification
  -- returns SS_STATUS_INVALID_UID for the bytes of a message: the object's header is the one that
  -- was sent, and the members behind it are as they were.
  pub unpack-other_message :
      (n m : Text) (d c : Option Text) (fs gs : Fields) (v old : Value) (pre room post : List ℕ)
      → let t = message n d fs in
        let u = message m c gs in
        find n types ≡ some t
        → find m types ≡ some u
        → t ≢ u
        → HasType t v
        → HasType u old
        → length room ≡ packed_size t
        → (header : Value) × (behind : Members) × (old
            ≡ block (member (codes "ss_header") header behind))
          × ((call_function
                  (Run.load ps [])
                  (pack_function_name t)
                  v
                  (length pre)
                  (pre ++ (room ++ post))
                >>= λ buf. call_unpack (load us []) (unpack_function_name u) buf (length pre) old)
              ≡ some (invalid_uid, block (with_header (uid t) (packed_size t) behind)))
  unfolding root_name
  unpack-other_message n m d c fs gs v old pre room post found found' differ fits old_fits sized =
      let t = message n d fs in
      let u = message m c gs in
      let is_parsed = parse_yaml-IsParsed yaml tag state' types parsed in
      let (size, packed) =
        generated-packs yaml tag types state' ps t v pre room post parsed distinct
          (unpackable-Supported types unpackable) packs found tt fits sized in
      let from = located t found in
      let headed = StartsWithHeader-Headed from.before fs from.valid.1 from.valid.2 in
      let (rest, bytes) = encode-header n d fs v headed fits in
      let held : Holds (pre ++ (encode t v ++ post)) (length pre)
          (header_bytes (uid t) (packed_size t) rest) =
        record {
          pre = pre;
          post = post;
          whole = ap (λ bs. pre ++ (bs ++ post)) bytes;
          place = refl;
        } in
      let checks =
        message-Checks (load us []) m c (pre ++ (encode t v ++ post)) rest (length pre) (uid t)
          (packed_size t) old gs (located u found') (uid-lt t)
          (IsUnpackable-short n d fs headed from.plain) old_fits held in
      (
        checks.header,
        checks.behind,
        checks.whole,
        rw packed (
            checks.called
            ∙ check_header-other_uid checks.calls (uid u) (packed_size u) checks.body
                (pre ++ (encode t v ++ post)) (length pre) (uid t) (packed_size t) checks.behind
                (λ e. differ (uid-injective types n m t u is_parsed.differ found found' e))),
      )
