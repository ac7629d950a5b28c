-- ===== src/C/Run/Structs.antt =====
-- The bodies of struct packing functions write their fields one after the other.
use mathlib.Core.Path.{subst}
use stuff_sack.Prelude.{
  ℕ, ◌+◌, ◌^◌, ◌≡◌, ◌<◌, refl, ap, sym, ◌∙◌, false, Bool, List, [], ◌∷◌, Option, some, arith,
  length, length-append, if◌then◌else◌, inl, inr, Bool-cases,
}
use stuff_sack.Prelude.Text.{Text, same, same_refl, same_sym, contains, Distinct}
use stuff_sack.Errors
use stuff_sack.Errors.{Result, ok}
use stuff_sack.Types.{SsType, array, Fields, nil, field, field_names, packed_size, fields_size}
use stuff_sack.Names.{pack_function_name}
use stuff_sack.Spec.Build.{Registry}
use stuff_sack.Spec.WellFormed.{IsFieldType, HasFieldTypes}
use stuff_sack.Spec.WellFormed.Types.{IsNamed}
use stuff_sack.C.Syntax.{at, Stmt, call, Body}
use stuff_sack.C.Generate.{is_aliased, alias_locals, field_pack, fields_pack, struct_pack_body}
use stuff_sack.C.Memory.{Value, items, Members, last, member, get_member, index_all, eval_offset}
use stuff_sack.C.Run.{Env, Frame, read, exec, exec_all, copy_locals, run_body}
use stuff_sack.C.Run.Spec.{
  HasType, HasFields, ShortArrays, ShortFields, AliasesCompile, encode, encode_fields,
}
use stuff_sack.C.Run.Frames.{Writes, some-Writes, seq-Writes}
use stuff_sack.C.Run.Declared.{body-compiles}
use stuff_sack.C.Run.Calls.{Callable, exec-call, array_pack-Writes}

named_field-cases :
    (n : Text) (t : SsType) (a : Option Text) (off : ℕ) (s : Stmt)
    → IsNamed t
    → field_pack n t a off ≡ ok s
    → s
      ≡ call
          (pack_function_name t)
          (record { local = is_aliased a; name = n; indices = [] })
          (at off)
unfolding field_pack
named_field-cases n (array t m) a off s named h = absurd named
named_field-cases n _ a off s named h = ground arith

read-field :
    (fr : Frame) (n : Text) (b : Bool) (v : Value)
    → get_member n (if b then fr.locals else fr.arg) ≡ some v
    → read fr [] (record { local = b; name = n; indices = [] }) ≡ some v
unfolding read index_all
read-field fr n b v h = rw h

eval_offset-at : (off : ℕ) → eval_offset [] (at off) ≡ some off
unfolding eval_offset
eval_offset-at off = refl

-- The frame holds the members' values, those of aliased fields among the local copies.
abbrev pub FieldsRead : Frame → Fields → Members → Type 0
FieldsRead fr (field n t d a fs) (member m v ms) =
    (get_member n (if is_aliased a then fr.locals else fr.arg) ≡ some v) × FieldsRead fr fs ms
FieldsRead fr _ _ = Unit

module _ (env : Env) (reg : Registry) (callable : Callable env reg) (fr : Frame) (base : ℕ) where
  abbrev PacksField : SsType → Type 0
  PacksField t =
      (n : Text) (a : Option Text) (off : ℕ) (s : Stmt) (v : Value)
      → IsFieldType reg t
      → field_pack n t a off ≡ ok s
      → get_member n (if is_aliased a then fr.locals else fr.arg) ≡ some v
      → HasType t v
      → ShortArrays t
      → off + packed_size t < 2 ^ 31
      → (length (encode t v) ≡ packed_size t)
        × Writes (exec env fr base [] s) (base + off) (packed_size t) (encode t v)

  named-PacksField : (t : SsType) → IsNamed t → PacksField t
  named-PacksField t named n a off s v typed h r fits short top =
      let (sized, write) = callable t named typed v fits in
      rw (named_field-cases n t a off s named h) (
        sized,
        λ pre old post at_pre at_old.
            exec-call env fr base [] _ _ (at off) v off _ (read-field fr n (is_aliased a) v r)
              (eval_offset-at off)
            ∙ write (base + off) pre old post at_pre at_old,
      )

  field_pack-Writes : (t : SsType) → PacksField t
  unfolding field_pack packed_size
  field_pack-Writes (array t m) n a off s (items vs) (pos, typed) h r fits short top =
      array_pack-Writes env reg callable fr base t _ m (at off) _ s [] vs off typed h tt tt
        (read-field fr n (is_aliased a) (items vs) r) (eval_offset-at off) fits short top
  field_pack-Writes (array t m) n a off s _ typed h r fits short top = absurd fits
  field_pack-Writes _ n a off s v typed h r fits short top =
      named-PacksField _ tt n a off s v typed h r fits short top

  fields_pack-Writes :
      (fs : Fields) (ms : Members) (off : ℕ) (ss : List Stmt)
      → HasFieldTypes reg fs
      → fields_pack fs off ≡ ok ss
      → FieldsRead fr fs ms
      → HasFields fs ms
      → ShortFields fs
      → off + fields_size fs < 2 ^ 31
      → (length (encode_fields fs ms) ≡ fields_size fs)
        × Writes (exec_all env fr base ss) (base + off) (fields_size fs) (encode_fields fs ms)
  unfolding fields_pack exec_all encode_fields fields_size
  fields_pack-Writes nil last off ss typed h reads fits short top =
      let e : [] ≡ ss = cc in rw (← e) (refl, some-Writes (base + off))
  fields_pack-Writes nil (member m v ms) off ss typed h reads fits short top = absurd fits
  fields_pack-Writes (field n t d a fs) last off ss typed h reads fits short top = absurd fits
  fields_pack-Writes (field n t d a fs) (member m v ms) off ss (t_typed, typed) h (r, reads)
        (named, t_fits, fits) (short, shorts) top =
      let (s, made, h₁) = Errors.>>=-eq-ok (field_pack n t a off) _ h in
      let (ss', looped, h₂) = Errors.>>=-eq-ok (fields_pack fs (off + packed_size t)) _ h₁ in
      let e : s ∷ ss' ≡ ss = cc in
      let (sized, write) =
        field_pack-Writes t n a off s v t_typed made r t_fits short (omega arith) in
      let (rest_sized, rest) =
        fields_pack-Writes fs ms (off + packed_size t) ss' typed looped reads fits shorts
          (omega arith) in
      rw (← e) (
        omega (arith, length-append (encode t v) (encode_fields fs ms)),
        seq-Writes (exec env fr base [] s) (exec_all env fr base ss') (base + off) (packed_size t)
            (fields_size fs) (encode t v) (encode_fields fs ms) sized write
            (λ pre old post at_pre at_old. rest pre old post (omega arith) at_old),
      )

-- Each member is found by its field's name.
abbrev ReadsFrom : Members → Fields → Members → Type 0
ReadsFrom whole (field n t d a fs) (member m v ms) =
    (get_member n whole ≡ some v) × ReadsFrom whole fs ms
ReadsFrom whole _ _ = Unit

-- A member of another name in front changes no read.
ReadsFrom-cons :
    (s : Text) (w : Value) (whole : Members) (fs : Fields) (ms : Members)
    → contains (field_names fs) s ≡ false
    → ReadsFrom whole fs ms
    → ReadsFrom (member s w whole) fs ms
unfolding field_names contains get_member
ReadsFrom-cons s w whole (field n t d a fs) (member m v ms) fresh (r, reads) =
    (ground (arith, same_sym s n), ReadsFrom-cons s w whole fs ms (ground arith) reads)
ReadsFrom-cons s w whole (field n t d a fs) last fresh reads = tt
ReadsFrom-cons s w whole nil ms fresh reads = tt

HasFields-ReadsFrom :
    (fs : Fields) (ms : Members) → Distinct (field_names fs) → HasFields fs ms → ReadsFrom ms fs ms
unfolding field_names get_member
HasFields-ReadsFrom nil ms d h = tt
HasFields-ReadsFrom (field n t e a fs) last d h = tt
HasFields-ReadsFrom (field n t e a fs) (member m v ms) (fresh, d) (named, fits, h) = (
  ground (arith, same_refl n, ap (λ s. same s n) named),
  subst (λ s. ReadsFrom (member s v ms) fs ms) (sym named)
      (ReadsFrom-cons n v ms fs ms fresh (HasFields-ReadsFrom fs ms d h)),
)

get_member-here : (n : Text) (v : Value) (ms : Members) → get_member n (member n v ms) ≡ some v
unfolding get_member
get_member-here n v ms = rw (same_refl n)

-- The copies of aliased fields, and what is read after they are made
record Copied (whole : Members) (fs : Fields) (ms : Members) : Type 0 where
  locals : Members
  made : copy_locals (alias_locals fs) whole ≡ some locals
  reads : FieldsRead (record { arg = whole; locals = locals }) fs ms

FieldsRead-cons :
    (whole locals : Members) (s : Text) (w : Value) (fs : Fields) (ms : Members)
    → contains (field_names fs) s ≡ false
    → FieldsRead (record { arg = whole; locals = locals }) fs ms
    → FieldsRead (record { arg = whole; locals = member s w locals }) fs ms
unfolding field_names contains get_member
FieldsRead-cons whole locals s w (field n t d a fs) (member m v ms) fresh (r, reads) =
    (ground (arith, same_sym s n), FieldsRead-cons whole locals s w fs ms (ground arith) reads)
FieldsRead-cons whole locals s w (field n t d a fs) last fresh reads = tt
FieldsRead-cons whole locals s w nil ms fresh reads = tt

copy_locals-Copied :
    (whole : Members) (fs : Fields) (ms : Members)
    → Distinct (field_names fs)
    → HasFields fs ms
    → ReadsFrom whole fs ms
    → Copied whole fs ms
unfolding copy_locals alias_locals field_names
copy_locals-Copied whole nil ms d h r = record { locals = last; made = refl; reads = tt }
copy_locals-Copied whole (field n t e a fs) last d h r = absurd h
copy_locals-Copied whole (field n t e a fs) (member m v ms) (fresh, d) (named, fits, h) (r, rs) =
    let rest = copy_locals-Copied whole fs ms d h rs in
    elim (Bool-cases (is_aliased a)) [
      | inl yes_alias ↦ record {
        locals = member n v rest.locals;
        made = rw (yes_alias, r, rest.made);
        reads = (
          rw yes_alias (get_member-here n v rest.locals),
          FieldsRead-cons whole rest.locals n v fs ms fresh rest.reads,
        );
      }
      | inr no_alias ↦ record {
        locals = rest.locals;
        made = rw (no_alias, rest.made);
        reads = (rw (no_alias, r), rest.reads);
      }
    ]

-- The body that `struct_pack_body` writes, run on a struct with the fields' members, writes the
-- bytes of the fields.
pub run_body-Writes :
    (env : Env) (reg : Registry) (callable : Callable env reg) (fs : Fields) (body : Body)
    (ms : Members) (k : ℕ)
    → Distinct (field_names fs)
    → HasFieldTypes reg fs
    → struct_pack_body fs ≡ ok body
    → HasFields fs ms
    → ShortFields fs
    → fields_size fs < 2 ^ 31
    → AliasesCompile fs
    → (length (encode_fields fs ms) ≡ fields_size fs)
      × Writes (run_body env body ms k) k (fields_size fs) (encode_fields fs ms)
unfolding struct_pack_body run_body
run_body-Writes env reg callable fs body ms k d typed h fits short top known =
    let (ss, made, h₁) = Errors.>>=-eq-ok (fields_pack fs 0) _ h in
    let c = copy_locals-Copied ms fs ms d fits (HasFields-ReadsFrom fs ms d fits) in
    let fr : Frame = record { arg = ms; locals = c.locals } in
    let (sized, write) =
      fields_pack-Writes env reg callable fr k fs ms 0 ss typed made c.reads fits short
        (omega arith) in
    let e : record { locals = alias_locals fs; statements = ss } ≡ body = cc in
    rw (← e) (
      sized,
      λ pre old post at_pre at_old.
          rw (body-compiles fs ss d made known, c.made) (write pre old post (omega arith) at_old),
    )
