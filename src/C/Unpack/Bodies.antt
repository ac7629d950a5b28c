-- ===== src/C/Unpack/Bodies.antt =====
-- The bodies of unpacking functions, run on the members of a struct.
use mathlib.Core.Path.{subst}
use stuff_sack.Prelude.{
  ℕ, suc, ◌+◌, ◌^◌, ◌≡◌, ◌<◌, refl, ap, List, [], ◌∷◌, some, arith, length, length-append,
}
use stuff_sack.Prelude.Text.{Distinct}
use stuff_sack.Errors.{ok}
use stuff_sack.Types.{Fields, nil, field, field_names, fields_size}
use stuff_sack.Spec.Build.{Registry}
use stuff_sack.Spec.WellFormed.{HasFieldTypes}
use stuff_sack.C.Syntax.{Stmt}
use stuff_sack.C.Generate.{alias_locals}
use stuff_sack.C.Memory.{Value, Members, last, member}
use stuff_sack.C.Run.Spec.{encode, encode_fields, HasFields, ShortFields}
use stuff_sack.C.Unpack.{fields_unpack, alias_copies}
use stuff_sack.C.Unpack.Run.{Env, run_body}
use stuff_sack.C.Unpack.Spec.{received_fields}
use stuff_sack.C.Unpack.Calls.{Holds, Callable}
use stuff_sack.C.Unpack.Arrays.{encode-size}
use stuff_sack.C.Unpack.Members.{
  members_of, HasValues, HasFields-HasValues, received_values, received_fields-members, join,
  Absent, Absent-last, declare_locals-aliased, copy_back-aliased,
}
use stuff_sack.C.Unpack.Structs.{NoHeaders, fields_unpack-Stores}

length-values :
    (fs : Fields) (xs ys : List Value)
    → HasValues fs xs
    → HasValues fs ys
    → length (received_values fs xs) ≡ length ys
length-values nil [] [] h k = refl
length-values nil [] (y ∷ ys) h k = absurd k
length-values nil (x ∷ xs) ys h k = absurd h
length-values (field n t d a fs) [] ys h k = absurd h
length-values (field n t d a fs) (x ∷ xs) [] h k = absurd k
length-values (field n t d a fs) (x ∷ xs) (y ∷ ys) (f, h) (g, k) =
    ap suc (length-values fs xs ys h k)

pub encode_fields-size :
    (env : Env) (reg : Registry) (callable : Callable env reg) (fs : Fields) (ms : Members)
    → HasFieldTypes reg fs
    → HasFields fs ms
    → length (encode_fields fs ms) ≡ fields_size fs
unfolding encode_fields fields_size
encode_fields-size env reg callable nil last typed fits = refl
encode_fields-size env reg callable nil (member m v ms) typed fits = absurd fits
encode_fields-size env reg callable (field n t d a fs) last typed fits = absurd fits
encode_fields-size env reg callable (field n t d a fs) (member m v ms) (t_typed, typed)
      (named, t_fits, fits) =
    omega (
      arith,
      length-append (encode t v) (encode_fields fs ms),
      encode-size env reg callable t v t_typed t_fits,
      encode_fields-size env reg callable fs ms typed fits,
    )

module _ (env : Env) (reg : Registry) (callable : Callable env reg) (buf : List ℕ) (base : ℕ) where
  values-Stored :
      (fs : Fields) (off : ℕ) (ss : List Stmt) (da : Members) (vs olds : List Value)
      → HasFieldTypes reg fs
      → NoHeaders fs
      → fields_unpack fs off ≡ ok ss
      → Distinct (field_names fs)
      → Absent da fs
      → HasValues fs vs
      → HasValues fs olds
      → Holds buf (base + off) (encode_fields fs (members_of fs vs))
      → ShortFields fs
      → off + fields_size fs < 2 ^ 31
      → run_body env
          (record { locals = alias_locals fs; statements = ss; copies = alias_copies fs })
          buf
          base
          (join da (members_of fs olds))
        ≡ some (join da (members_of fs (received_values fs vs)))
  unfolding run_body
  values-Stored fs off ss da vs olds typed plain made distinct ha fits old_fits held shorts top =
      let news = received_values fs vs in
      rw
        (
          declare_locals-aliased fs da olds distinct ha old_fits,
          fields_unpack-Stores env reg callable buf base fs off ss da last vs olds typed plain made
              distinct ha (Absent-last fs) fits old_fits held shorts top,
        )
        (copy_back-aliased fs da last olds news distinct ha (Absent-last fs) old_fits
          (length-values fs vs olds fits old_fits))

  -- The body for fields behind the members `da`
  pub run_body-Stores :
      (fs : Fields) (off : ℕ) (ss : List Stmt) (da ms olds : Members)
      → HasFieldTypes reg fs
      → NoHeaders fs
      → fields_unpack fs off ≡ ok ss
      → Distinct (field_names fs)
      → Absent da fs
      → HasFields fs ms
      → HasFields fs olds
      → Holds buf (base + off) (encode_fields fs ms)
      → ShortFields fs
      → off + fields_size fs < 2 ^ 31
      → run_body env
          (record { locals = alias_locals fs; statements = ss; copies = alias_copies fs })
          buf
          base
          (join da olds)
        ≡ some (join da (received_fields fs ms))
  run_body-Stores fs off ss da ms olds typed plain made distinct ha fits old_fits held shorts top =
      let (vs, whole, has) = HasFields-HasValues fs ms fits in
      let (us, old_whole, old_has) = HasFields-HasValues fs olds old_fits in
      rw (whole, old_whole, received_fields-members fs vs has)
        (values-Stored fs off ss da vs us typed plain made distinct ha has old_has
          (subst (λ ms. Holds buf (base + off) (encode_fields fs ms)) whole held) shorts top)
