-- ===== src/C/Run/Functions.antt =====
-- Each generated function writes the bytes of its type, over functions that do so for the types
-- before it.
use mathlib.Core.List.{append-nil}
use mathlib.Core.Path.{subst, subst₃}
use stuff_sack.Prelude.{
  ℕ, ◌*◌, ◌%◌, ◌^◌, ◌≡◌, ◌<◌, refl, ap, sym, ◌∙◌, List, [], ◌++◌, Option, none, some, arith, length,
}
use stuff_sack.Prelude.Text.{Text, codes, same}
use stuff_sack.Errors
use stuff_sack.Errors.{Result, ok}
use stuff_sack.Types.{
  SsType, primitive, bitfield, enum, struct, message, array, Fields, nil, field, packed_size, uid,
  root_name, BitfieldField, EnumValue,
}
use stuff_sack.Types.SizeLaws.{IsWord, IsWord-ind}
use stuff_sack.Hash.Uid.{decimal}
use stuff_sack.Names.{pack_function_name}
use stuff_sack.Spec.Build.{Registry}
use stuff_sack.Spec.WellFormed.{IsType, IsFields, StartsWithHeader, Builtins, header_type}
use stuff_sack.C.Syntax.{Function, fields, stamped, Body}
use stuff_sack.C.Generate.{pack, primitive_pack, enum_pack, struct_pack_body}
use stuff_sack.C.Memory.{Value, word, block, Members, last, member, convert}
use stuff_sack.C.Run.{Env, run_body, stamp, run_function}
use stuff_sack.C.Run.Spec.{IsSupported, HasType, encode, encode_fields, big_endian}
use stuff_sack.C.Run.Bytes.{store_bytes-big_endian, length-big_endian}
use stuff_sack.C.Run.Frames.{Writes}
use stuff_sack.C.Run.Calls.{Callable, PacksAs}
use stuff_sack.C.Run.Structs.{run_body-Writes}

-- A function that packs any value of a type.
abbrev pub Implements : Env → Function → SsType → Type 0
Implements env f t =
    (v : Value)
    → HasType t v
    → (length (encode t v) ≡ packed_size t)
      × ((k : ℕ) → Writes (run_function env f v k) k (packed_size t) (encode t v))

primitive-Writes :
    (env : Env) (b w k : ℕ)
    → Writes (run_function env (primitive_pack b) (word w) k) k b (big_endian b w)
unfolding run_function primitive_pack
primitive-Writes env b w k pre old post at_pre at_old =
    rw (← at_pre) (store_bytes-big_endian w b pre old post at_old)

primitive-Implements :
    (env : Env) (n : Text) (b : ℕ) → Implements env (primitive_pack b) (primitive n b)
unfolding encode packed_size
primitive-Implements env n b (word w) fits = (length-big_endian b w, primitive-Writes env b w)
primitive-Implements env n b _ fits = absurd fits

bitfield-Implements :
    (env : Env) (n : Text) (d : Option Text) (fs : List BitfieldField) (b : ℕ)
    → Implements env (primitive_pack b) (bitfield n d fs b)
unfolding encode packed_size
bitfield-Implements env n d fs b (word w) fits = (length-big_endian b w, primitive-Writes env b w)
bitfield-Implements env n d fs b _ fits = absurd fits

pub convert-lt : (b w : ℕ) → IsWord b → w < 2 ^ 32 → convert 32 (b * 8) w < 256 ^ b
unfolding convert
convert-lt b w h lt =
    IsWord-ind (λ b. convert 32 (b * 8) w < 256 ^ b) (ground arith) (ground arith) (ground arith)
      (ground arith) b h

-- The packing function of the integers that `enum_pack` calls
enum-PacksAs :
    (env : Env) (reg : Registry) (b : ℕ)
    → Callable env reg
    → Builtins reg
    → IsWord b
    → (n : Text) × (pack_function_name (primitive n b) ≡ codes "SsPackInt" ++ decimal (b * 8))
      × PacksAs env (primitive n b)
unfolding pack_function_name decimal root_name
enum-PacksAs env reg b callable builtins h =
    let packs = λ (n : Text) (b : ℕ). callable (primitive n b) tt in
    IsWord-ind
      (λ b.
        (n : Text) × (pack_function_name (primitive n b) ≡ codes "SsPackInt" ++ decimal (b * 8))
        × PacksAs env (primitive n b))
      (codes "int8", refl, packs _ 1 builtins.int8) (codes "int16", refl, packs _ 2 builtins.int16)
      (codes "int32", refl, packs _ 4 builtins.int32)
      (codes "int64", refl, packs _ 8 builtins.int64) b h

module _ (env : Env) (reg : Registry) (callable : Callable env reg) where
  enum-Implements :
      (n : Text) (d : Option Text) (vs : List EnumValue) (b : ℕ)
      → Builtins reg
      → IsWord b
      → Implements env (enum_pack b) (enum n d vs b)
  unfolding run_function enum_pack encode packed_size
  enum-Implements n d vs b builtins h (word w) fits =
      let (int_name, called, packs) = enum-PacksAs env reg b callable builtins h in
      let (sized, write) = packs (word (convert 32 (b * 8) w)) (convert-lt b w h fits) in
      (sized, λ k. rw (← called) (write k))
  enum-Implements n d vs b builtins h _ fits = absurd fits

  struct-Implements :
      (n : Text) (d : Option Text) (fs : Fields) (body : Body)
      → IsFields reg fs
      → IsSupported (struct n d fs)
      → struct_pack_body fs ≡ ok body
      → Implements env (fields body) (struct n d fs)
  unfolding run_function encode packed_size
  struct-Implements n d fs body valid (short, top, known) h (block ms) fits =
      let writes = λ (k : ℕ).
        run_body-Writes env reg callable fs body ms k valid.distinct valid.types h fits short top
          known in
      ((writes 0).0, λ k. (writes k).1)
  struct-Implements n d fs body valid range h _ fits = absurd fits

pub big_endian-mod :
    (u : ℕ)
    → (big_endian 4 (u % 2 ^ 32) ≡ big_endian 4 u) × (big_endian 2 (u % 2 ^ 16) ≡ big_endian 2 u)
unfolding big_endian
big_endian-mod u = (ground arith, ground arith)

pub header_bytes :
    (u len : ℕ) (rest : List ℕ)
    → (big_endian 4 (u % 2 ^ 32) ++ (big_endian 2 (len % 2 ^ 16) ++ [])) ++ rest
      ≡ big_endian 4 u ++ big_endian 2 len ++ rest
header_bytes u len rest = rw ((big_endian-mod u).0, (big_endian-mod len).1, append-nil)

-- The members of a message after `message_pack` has filled in its header
abbrev pub stamped_members : ℕ → ℕ → Members → Members
stamped_members u len ms =
    member (codes "ss_header")
      (block (
        member (codes "uid") (word (u % 2 ^ 32)) (member (codes "len") (word (len % 2 ^ 16)) last)))
      ms

pub stamp-header :
    (u len : ℕ) (m : Text) (v : Value) (ms : Members)
    → m ≡ codes "ss_header"
    → HasType header_type v
    → stamp u len (member m v ms) ≡ some (stamped_members u len ms)
unfolding stamp same
stamp-header u len m (block (member a (word x) (member b (word y) last))) ms e
      (ea, fa, (eb, fb, rest)) =
    subst₃
      (λ m a b.
        stamp u len (member m (block (member a (word x) (member b (word y) last))) ms)
        ≡ some (stamped_members u len ms))
      (sym e) (sym ea) (sym eb) refl
stamp-header u len m _ ms e fits = absurd (ground arith)

module _ (env : Env) (reg : Registry) (callable : Callable env reg) where
  plain_message-Implements :
      (n : Text) (d e : Option Text) (fs : Fields) (body : Body)
      → let whole = field (codes "ss_header") header_type e none fs in
        IsFields reg whole
        → IsSupported (message n d whole)
        → struct_pack_body whole ≡ ok body
        → Implements env
            (stamped (uid (message n d whole)) (packed_size (message n d whole)) body)
            (message n d whole)
  unfolding run_function encode packed_size
  plain_message-Implements n d e fs body valid (short, top, known) h (block (member m v ms))
        (named, header, fits) =
      let whole = field (codes "ss_header") header_type e none fs in
      let u = uid (message n d whole) in
      let len = packed_size (message n d whole) in
      let writes = λ (k : ℕ).
        run_body-Writes env reg callable whole body (stamped_members u len ms) k valid.distinct
          valid.types h (refl, (refl, omega arith, (refl, omega arith, tt)), fits) short top
          known in
      let bytes : encode_fields whole (stamped_members u len ms)
          ≡ big_endian 4 u ++ big_endian 2 len ++ encode_fields fs ms =
        header_bytes u len (encode_fields fs ms) in
      (
        ap length (sym bytes) ∙ (writes 0).0,
        λ k pre old post at_pre at_old. rw (stamp-header u len m v ms named header) (
            subst
              (λ bs.
                run_body env body (stamped_members u len ms) k (pre ++ (old ++ post))
                ≡ some (pre ++ (bs ++ post)))
              bytes ((writes k).1 pre old post at_pre at_old)),
      )
  plain_message-Implements n d e fs body valid range h _ fits = absurd (ground arith)

  message-Implements :
      (n : Text) (d : Option Text) (fs : Fields) (body : Body)
      → IsFields reg fs
      → IsSupported (message n d fs)
      → StartsWithHeader reg fs
      → Builtins reg
      → struct_pack_body fs ≡ ok body
      → Implements env
          (stamped (uid (message n d fs)) (packed_size (message n d fs)) body)
          (message n d fs)
  message-Implements n d nil body valid range starts builtins h = absurd starts
  message-Implements n d (field h t e a fs) body valid range (eh, found, ea) builtins made =
      let et : header_type ≡ t = cc (found, builtins.header) in
      subst₃
        (λ h t a.
          IsFields reg (field h t e a fs)
          → IsSupported (message n d (field h t e a fs))
          → struct_pack_body (field h t e a fs) ≡ ok body
          → Implements env
              (stamped (uid (message n d (field h t e a fs)))
                (packed_size (message n d (field h t e a fs))) body)
              (message n d (field h t e a fs)))
        (sym eh) et (sym ea) (plain_message-Implements n d e fs body) valid range made

  -- The function that `pack` generates for a type packs the values of the type.
  pub pack-Implements :
      (t : SsType) (f : Function)
      → IsType reg t
      → IsSupported t
      → pack t ≡ ok f
      → Implements env f t
  unfolding pack
  pack-Implements (primitive n b) f valid range h =
      let e : primitive_pack b ≡ f = cc in rw (← e) (primitive-Implements env n b)
  pack-Implements (bitfield n d fs b) f valid range h =
      let e : primitive_pack b ≡ f = cc in rw (← e) (bitfield-Implements env n d fs b)
  pack-Implements (enum n d vs b) f (valid, builtins) range h =
      let e : enum_pack b ≡ f = cc in
      rw (← e) (enum-Implements env reg callable n d vs b builtins valid.size.word)
  pack-Implements (struct n d fs) f valid range h =
      let (body, made, h₁) = Errors.>>=-eq-ok (struct_pack_body fs) _ h in
      let e : fields body ≡ f = cc in
      rw (← e) (struct-Implements env reg callable n d fs body valid range made)
  pack-Implements (message n d fs) f (valid, starts, builtins) range h =
      let (body, made, h₁) = Errors.>>=-eq-ok (struct_pack_body fs) _ h in
      let e : stamped (uid (message n d fs)) (packed_size (message n d fs)) body ≡ f = cc in
      rw (← e) (message-Implements n d fs body valid range starts builtins made)
  pack-Implements (array t n) f valid range h = absurd valid
