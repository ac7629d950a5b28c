-- ===== src/C/Unpack/Functions.antt =====
-- Each generated unpacking function reads back what was packed, over functions that do so for the
-- types before it.
use mathlib.Core.Path.{subst}
use stuff_sack.Prelude.{
  ℕ, ◌+◌, ◌*◌, ◌^◌, ◌≡◌, ◌<◌, refl, sym, List, [], ◌∷◌, ◌++◌, All, Option, some, arith, length,
}
use stuff_sack.Prelude.Text.{Text, codes}
use stuff_sack.Errors
use stuff_sack.Errors.{Result, ok}
use stuff_sack.Types.{
  SsType, primitive, bitfield, enum, struct, message, array, Fields, nil, field, fields_size,
  packed_size, root_name, BitfieldField, EnumValue,
}
use stuff_sack.Types.SizeLaws.{IsWord, IsWord-ind}
use stuff_sack.Hash.Uid.{decimal}
use stuff_sack.Names.{unpack_function_name}
use stuff_sack.Spec.Build.{Registry}
use stuff_sack.Spec.WellFormed.{IsFields, Builtins}
use stuff_sack.C.Generate.{shifts, alias_locals}
use stuff_sack.C.Memory.{Value, word, block, Members, last, ◌>>=◌, >>=-eq-some, convert}
use stuff_sack.C.Run.Spec.{
  IsSupported, ShortFields, AliasesCompile, HasType, HasFields, encode, encode_fields, big_endian,
}
use stuff_sack.C.Run.Bytes.{length-big_endian}
use stuff_sack.C.Run.Functions.{convert-lt}
use stuff_sack.C.Unpack.{
  Body, Function, narrowed, fields, fields_unpack, struct_unpack_body, alias_copies,
  primitive_unpack, enum_unpack,
}
use stuff_sack.C.Unpack.Run.{success, Env, get_function, run_function, load_bytes, get_word}
use stuff_sack.C.Unpack.Loads.{load_bytes-big_endian}
use stuff_sack.C.Unpack.Spec.{received}
use stuff_sack.C.Unpack.Calls.{Holds, UnpacksAs, Callable}
use stuff_sack.C.Unpack.Members.{Absent-last}
use stuff_sack.C.Unpack.Structs.{NoHeaders}
use stuff_sack.C.Unpack.Bodies.{encode_fields-size, run_body-Stores}

-- A function that unpacks any value of a type.
abbrev pub Implements : Env → Function → SsType → Type 0
Implements env f t =
    (v : Value)
    → HasType t v
    → (length (encode t v) ≡ packed_size t)
      × ((old : Value) (buf : List ℕ) (k : ℕ)
          → HasType t old
          → Holds buf k (encode t v)
          → run_function env f buf k old ≡ some (success, received t v))

-- What a struct or message needs beside the checks of the reader: no field of type `SsHeader` but a
-- message's first, loops and offsets that an `int` holds, and a length that the header can hold.
abbrev pub IsUnpackable : SsType → Type 0
IsUnpackable (struct n d fs) = NoHeaders fs × IsSupported (struct n d fs)
IsUnpackable (message n d (field h t e a fs)) =
    NoHeaders fs
    × (packed_size (message n d (field h t e a fs)) < 2 ^ 16)
    × ShortFields (field h t e a fs)
    × AliasesCompile (field h t e a fs)
IsUnpackable _ = Unit

IsUnpackable-IsSupported : (t : SsType) → IsUnpackable t → IsSupported t
unfolding packed_size fields_size
IsUnpackable-IsSupported (struct n d fs) (plain, range) = range
IsUnpackable-IsSupported (message n d nil) h = (tt, omega arith, tt)
IsUnpackable-IsSupported (message n d (field h t e a fs)) (plain, short, shorts, known) =
    (shorts, omega arith, known)
IsUnpackable-IsSupported (primitive n b) h = tt
IsUnpackable-IsSupported (bitfield n d fs b) h = tt
IsUnpackable-IsSupported (enum n d vs b) h = tt
IsUnpackable-IsSupported (array t n) h = tt

pub unpackable-Supported : (ts : List SsType) → All IsUnpackable ts → All IsSupported ts
unpackable-Supported [] h = tt
unpackable-Supported (t ∷ ts) (h, hs) = (IsUnpackable-IsSupported t h, unpackable-Supported ts hs)

load-Holds :
    (b w k : ℕ) (buf : List ℕ)
    → w < 256 ^ b
    → Holds buf k (big_endian b w)
    → load_bytes (b * 8) buf k (shifts b) 0 ≡ some w
load-Holds b w k buf lt h =
    subst (λ l. load_bytes (b * 8) l k (shifts b) 0 ≡ some w) (sym h.whole)
      (subst (λ j. load_bytes (b * 8) (h.pre ++ (big_endian b w ++ h.post)) j (shifts b) 0 ≡ some w)
        h.place (load_bytes-big_endian w b h.pre h.post lt))

primitive-word :
    (n : Text) (b : ℕ) (v : Value)
    → HasType (primitive n b) v
    → (w : ℕ) × (v ≡ word w) × (w < 256 ^ b)
primitive-word n b (word w) fits = (w, refl, fits)
primitive-word n b _ fits = absurd fits

bitfield-word :
    (n : Text) (d : Option Text) (fs : List BitfieldField) (b : ℕ) (v : Value)
    → HasType (bitfield n d fs b) v
    → (w : ℕ) × (v ≡ word w) × (w < 256 ^ b)
bitfield-word n d fs b (word w) fits = (w, refl, fits)
bitfield-word n d fs b _ fits = absurd fits

enum-word :
    (n : Text) (d : Option Text) (vs : List EnumValue) (b : ℕ) (v : Value)
    → HasType (enum n d vs b) v
    → (w : ℕ) × (v ≡ word w) × (w < 2 ^ 32)
enum-word n d vs b (word w) fits = (w, refl, fits)
enum-word n d vs b _ fits = absurd fits

pub struct-block :
    (n : Text) (d : Option Text) (fs : Fields) (v : Value)
    → HasType (struct n d fs) v
    → (ms : Members) × (v ≡ block ms) × HasFields fs ms
struct-block n d fs (block ms) fits = (ms, refl, fits)
struct-block n d fs _ fits = absurd fits

loads-run :
    (env : Env) (b w k x : ℕ) (buf : List ℕ)
    → w < 256 ^ b
    → Holds buf k (big_endian b w)
    → run_function env (primitive_unpack b) buf k (word x) ≡ some (success, word w)
unfolding run_function primitive_unpack
loads-run env b w k x buf lt h = rw (load-Holds b w k buf lt h) refl

pub primitive-Implements :
    (env : Env) (n : Text) (b : ℕ) → Implements env (primitive_unpack b) (primitive n b)
unfolding encode packed_size received
primitive-Implements env n b (word w) fits = (
  length-big_endian b w,
  λ old buf k old_fits h.
      let (x, e, lt) = primitive-word n b old old_fits in rw e (loads-run env b w k x buf fits h),
)
primitive-Implements env n b _ fits = absurd fits

pub bitfield-Implements :
    (env : Env) (n : Text) (d : Option Text) (fs : List BitfieldField) (b : ℕ)
    → Implements env (primitive_unpack b) (bitfield n d fs b)
unfolding encode packed_size received
bitfield-Implements env n d fs b (word w) fits = (
  length-big_endian b w,
  λ old buf k old_fits h.
      let (x, e, lt) = bitfield-word n d fs b old old_fits in
      rw e (loads-run env b w k x buf fits h),
)
bitfield-Implements env n d fs b _ fits = absurd fits

-- The unpacking function of the integers that `enum_unpack` calls
enum-UnpacksAs :
    (env : Env) (reg : Registry) (b : ℕ)
    → Callable env reg
    → Builtins reg
    → IsWord b
    → (n : Text) × (unpack_function_name (primitive n b) ≡ codes "SsUnpackInt" ++ decimal (b * 8))
      × UnpacksAs env (primitive n b)
unfolding unpack_function_name decimal root_name
enum-UnpacksAs env reg b callable builtins h =
    let unpacks = λ (n : Text) (b : ℕ). callable (primitive n b) tt in
    IsWord-ind
      (λ b.
        (n : Text) × (unpack_function_name (primitive n b) ≡ codes "SsUnpackInt" ++ decimal (b * 8))
        × UnpacksAs env (primitive n b))
      (codes "int8", refl, unpacks _ 1 builtins.int8)
      (codes "int16", refl, unpacks _ 2 builtins.int16)
      (codes "int32", refl, unpacks _ 4 builtins.int32)
      (codes "int64", refl, unpacks _ 8 builtins.int64) b h

zero-lt : (b : ℕ) → IsWord b → 0 < 256 ^ b
zero-lt b h =
    IsWord-ind (λ b. 0 < 256 ^ b) (omega arith) (omega arith) (omega arith) (omega arith) b h

module _ (env : Env) (reg : Registry) (callable : Callable env reg) where
  narrowed-run :
      (name : Text) (b w x k : ℕ) (buf : List ℕ)
      → (get_function name env >>= λ f. f buf k (word 0)) ≡ some (success, word w)
      → run_function env (narrowed b name) buf k (word x)
        ≡ some (success, word (convert (b * 8) 32 w))
  unfolding run_function get_word
  narrowed-run name b w x k buf h =
      let (g, found, called) = >>=-eq-some (get_function name env) _ h in rw (found, called) refl

  pub enum-Implements :
      (n : Text) (d : Option Text) (vs : List EnumValue) (b : ℕ)
      → Builtins reg
      → IsWord b
      → Implements env (enum_unpack b) (enum n d vs b)
  unfolding run_function enum_unpack encode packed_size received
  enum-Implements n d vs b builtins h (word w) fits =
      let (int_name, called, unpacks) = enum-UnpacksAs env reg b callable builtins h in
      let (sized, reads) = unpacks (word (convert 32 (b * 8) w)) (convert-lt b w h fits) in
      (
        sized,
        λ old buf k old_fits held.
            let (x, e, lt) = enum-word n d vs b old old_fits in
            rw (e, ← called)
              (narrowed-run (unpack_function_name (primitive int_name b)) b _ x k buf
                (reads (word 0) buf k (zero-lt b h) held)),
      )
  enum-Implements n d vs b builtins h _ fits = absurd fits

  pub struct-Implements :
      (n : Text) (d : Option Text) (fs : Fields) (body : Body)
      → IsFields reg fs
      → NoHeaders fs
      → IsSupported (struct n d fs)
      → struct_unpack_body fs ≡ ok body
      → Implements env (fields body) (struct n d fs)
  unfolding run_function encode packed_size received struct_unpack_body
  struct-Implements n d fs body valid plain (short, top, known) h (block ms) fits =
      let (ss, made, h₁) = Errors.>>=-eq-ok (fields_unpack fs 0) _ h in
      (
        encode_fields-size env reg callable fs ms valid.types fits,
        λ old buf k old_fits held.
            let (olds, is_block, fit) = struct-block n d fs old old_fits in
            let at_k : k ≡ k + 0 = omega arith in
            let run =
              run_body-Stores env reg callable buf k fs 0 ss last ms olds valid.types plain made
                valid.distinct (Absent-last fs) fits fit
                (subst (λ j. Holds buf j (encode_fields fs ms)) at_k held) short (omega arith) in
            let e : record { locals = alias_locals fs; statements = ss; copies = alias_copies fs }
                ≡ body =
              cc in
            rw (is_block, ← e, run) refl,
      )
  struct-Implements n d fs body valid plain range h _ fits = absurd fits
