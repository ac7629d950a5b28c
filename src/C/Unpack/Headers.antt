-- ===== src/C/Unpack/Headers.antt =====
-- The unpacking functions of messages, which check the header.
use mathlib.Core.List.{append_assoc, append-nil}
use mathlib.Core.Path.{subst, subst₃}
use stuff_sack.Prelude.{
  ℕ, ◌+◌, ◌^◌, ◌≡◌, ◌≢◌, ◌<◌, refl, ap, sym, ◌∙◌, List, [], ◌++◌, Option, none, some, arith, length,
  length-append,
}
use stuff_sack.Prelude.Text.{Text, codes, same}
use stuff_sack.Errors
use stuff_sack.Errors.{Result, ok}
use stuff_sack.Types.{
  SsType, primitive, bitfield, enum, struct, message, array, Fields, nil, field, field_names,
  packed_size, uid, root_name, type_name,
}
use stuff_sack.Types.Uids.{uid-lt}
use stuff_sack.Names.{unpack_function_name}
use stuff_sack.Spec.Build.{Registry}
use stuff_sack.Spec.WellFormed.{IsType, IsFields, StartsWithHeader, Builtins, header_type}
use stuff_sack.C.Syntax.{Stmt}
use stuff_sack.C.Generate.{alias_locals}
use stuff_sack.C.Memory.{Value, block, Members, last, member, >>=-eq-some, get_member, set_member}
use stuff_sack.C.Run.Spec.{HasType, HasFields, encode, encode_fields, big_endian}
use stuff_sack.C.Run.Bytes.{length-big_endian}
use stuff_sack.C.Unpack.{
  Body, Function, fields, checked, field_unpack, fields_unpack, struct_unpack_body, header_function,
  message_unpack, alias_copies, primitive_unpack, enum_unpack, unpack,
}
use stuff_sack.C.Unpack.Run.{
  success, invalid_uid, invalid_len, Env, get_function, get_word, get_block, header_word, run_body,
  run_function, check_header,
}
use stuff_sack.C.Unpack.Spec.{received, received_fields, header_value}
use stuff_sack.C.Unpack.Calls.{Holds, Holds-append, Callable}
use stuff_sack.C.Unpack.Members.{Absent-last, Absent-snoc}
use stuff_sack.C.Unpack.Bodies.{encode_fields-size, run_body-Stores}
use stuff_sack.C.Unpack.Functions.{
  Implements, IsUnpackable, primitive-Implements, bitfield-Implements, enum-Implements,
  struct-Implements,
}

-- The bytes of a header, in front of others
abbrev pub header_bytes : ℕ → ℕ → List ℕ → List ℕ
header_bytes u len rest = big_endian 4 u ++ big_endian 2 len ++ rest

pub header-split :
    (buf : List ℕ) (k u len : ℕ) (rest : List ℕ)
    → Holds buf k (header_bytes u len rest)
    → Holds buf k (big_endian 4 u ++ (big_endian 2 len ++ [])) × Holds buf (k + 6) rest
header-split buf k u len rest h =
    let e : header_bytes u len rest ≡ (big_endian 4 u ++ (big_endian 2 len ++ [])) ++ rest =
      rw (append-nil, append_assoc) refl in
    let sized : length (big_endian 4 u ++ (big_endian 2 len ++ [])) ≡ 6 = rw append-nil (
      omega (
        arith,
        length-append (big_endian 4 u) (big_endian 2 len),
        length-big_endian 4 u,
        length-big_endian 2 len,
      )) in
    Holds-append buf k 6 _ rest sized (subst (Holds buf k) e h)

-- A message's members, its header replaced
abbrev pub with_header : ℕ → ℕ → Members → Members
with_header u len ms = member (codes "ss_header") (header_value u len) ms

header_words :
    (u len : ℕ) (ms : Members)
    → (header_word (codes "uid") (with_header u len ms) ≡ some u)
      × (header_word (codes "len") (with_header u len ms) ≡ some len)
unfolding header_word get_member get_block get_word same
header_words u len ms = (refl, refl)

module _ (env : Env) (u len : ℕ) (body : Body) (buf : List ℕ) (k : ℕ) where
  pub check_header-other_uid :
      (got_uid got_len : ℕ) (ms : Members)
      → got_uid ≢ u
      → check_header env u len body buf k (with_header got_uid got_len ms)
        ≡ some (invalid_uid, block (with_header got_uid got_len ms))
  unfolding check_header
  check_header-other_uid got_uid got_len ms h =
      rw ((header_words got_uid got_len ms).0, (header_words got_uid got_len ms).1) (ground arith)

  pub check_header-other_len :
      (got_len : ℕ) (ms : Members)
      → got_len ≢ len
      → check_header env u len body buf k (with_header u got_len ms)
        ≡ some (invalid_len, block (with_header u got_len ms))
  unfolding check_header
  check_header-other_len got_len ms h =
      rw ((header_words u got_len ms).0, (header_words u got_len ms).1) (ground arith)

  pub check_header-success :
      (ms ms' : Members)
      → run_body env body buf k (with_header u len ms) ≡ some ms'
      → check_header env u len body buf k (with_header u len ms) ≡ some (success, block ms')
  unfolding check_header
  check_header-success ms ms' h =
      rw ((header_words u len ms).0, (header_words u len ms).1) (ground (arith, h))

set_member-header :
    (v w : Value) (ms : Members)
    → set_member (codes "ss_header") w (member (codes "ss_header") v ms)
      ≡ member (codes "ss_header") w ms
unfolding set_member same
set_member-header v w ms = refl

get_member-header :
    (v : Value) (ms : Members)
    → get_member (codes "ss_header") (member (codes "ss_header") v ms) ≡ some v
unfolding get_member same
get_member-header v ms = refl

-- A message by its header and the members behind it
pub message-block :
    (n : Text) (d e : Option Text) (fs : Fields) (v : Value)
    → HasType (message n d (field (codes "ss_header") header_type e none fs)) v
    → (h : Value) × (ms : Members) × (v ≡ block (member (codes "ss_header") h ms))
      × HasType header_type h
      × HasFields fs ms
message-block n d e fs (block (member m h ms)) (named, header, fits) =
    (h, ms, ap (λ m. block (member m h ms)) named, header, fits)
message-block n d e fs _ fits = absurd (ground arith)

-- The header's field has no statement.
header_body :
    (e : Option Text) (fs : Fields) (body : Body)
    → struct_unpack_body (field (codes "ss_header") header_type e none fs) ≡ ok body
    → (ss : List Stmt) × (fields_unpack fs 6 ≡ ok ss)
      × (record { locals = alias_locals fs; statements = ss; copies = alias_copies fs } ≡ body)
unfolding struct_unpack_body fields_unpack field_unpack same type_name packed_size alias_locals
    alias_copies root_name
header_body e fs body h =
    let whole = field (codes "ss_header") header_type e none fs in
    let (ss', made', h₁) = Errors.>>=-eq-ok (fields_unpack whole 0) _ h in
    let (ss, made, h₂) = Errors.>>=-eq-ok (fields_unpack fs 6) (λ rest. ok rest) made' in
    let same_ss : ss ≡ ss' = cc in (ss, made, rw same_ss cc)

module _ (env : Env) (reg : Registry) (callable : Callable env reg) (builtins : Builtins reg) where
  -- Whatever header stands in the buffer, the function reads it and then checks it.
  pub checked-run :
      (u len : ℕ) (body : Body) (got_uid got_len k : ℕ) (rest buf : List ℕ) (old : Value)
      (ms : Members)
      → got_uid < 2 ^ 32
      → got_len < 2 ^ 16
      → HasType header_type old
      → Holds buf k (header_bytes got_uid got_len rest)
      → run_function env
          (checked (unpack_function_name header_type) u len body)
          buf
          k
          (block (member (codes "ss_header") old ms))
        ≡ check_header env u len body buf k (with_header got_uid got_len ms)
  unfolding run_function received encode root_name
  checked-run u len body got_uid got_len k rest buf old ms u_lt len_lt fits h =
      let unpacks =
        callable header_type tt builtins.header (header_value got_uid got_len)
          (refl, omega arith, (refl, omega arith, tt)) in
      let called = unpacks.1 old buf k fits (header-split buf k got_uid got_len rest h).0 in
      let (g, found, result) =
        >>=-eq-some (get_function (unpack_function_name header_type) env) _ called in
      rw (get_member-header old ms, found, result, set_member-header old _ ms) refl

  plain_message-Implements :
      (n : Text) (d e : Option Text) (fs : Fields) (body : Body)
      → let whole = field (codes "ss_header") header_type e none fs in
        IsFields reg whole
        → IsUnpackable (message n d whole)
        → struct_unpack_body whole ≡ ok body
        → Implements env
            (checked
              (unpack_function_name header_type)
              (uid (message n d whole))
              (packed_size (message n d whole))
              body)
            (message n d whole)
  unfolding encode packed_size received field_names big_endian
  plain_message-Implements n d e fs body valid (plain, short, (header_short, shorts), known) h
        (block (member m v ms)) (named, header, fits) =
      let t = message n d (field (codes "ss_header") header_type e none fs) in
      let (ss, made, is_body) = header_body e fs body h in
      (
        omega (
          arith,
          length-append (big_endian 4 (uid t))
              (big_endian 2 (packed_size t) ++ encode_fields fs ms),
          length-append (big_endian 2 (packed_size t)) (encode_fields fs ms),
          length-big_endian 4 (uid t),
          length-big_endian 2 (packed_size t),
          encode_fields-size env reg callable fs ms valid.types.1 fits,
        ),
        λ old buf k old_fits held.
            let (w, olds, is_block, header_fits, fit) = message-block n d e fs old old_fits in
            let run =
              checked-run (uid t) (packed_size t) body (uid t) (packed_size t) k
                (encode_fields fs ms) buf w olds (uid-lt t) short header_fits held in
            let head = header_value (uid t) (packed_size t) in
            let absent =
              Absent-snoc last (codes "ss_header") head fs (Absent-last fs) valid.distinct.0 in
            let filled =
              run_body-Stores env reg callable buf k fs 6 ss (member (codes "ss_header") head last)
                ms olds valid.types.1 plain made valid.distinct.1 absent fits fit
                (header-split buf k (uid t) (packed_size t) (encode_fields fs ms) held).1 shorts
                (omega (arith, short)) in
            rw is_block (
              run
              ∙ check_header-success env (uid t) (packed_size t) body buf k olds _ (
                  subst
                    (λ b.
                      run_body env b buf k (with_header (uid t) (packed_size t) olds)
                      ≡ some (with_header (uid t) (packed_size t) (received_fields fs ms)))
                    is_body filled)),
      )
  plain_message-Implements n d e fs body valid plain h _ fits = absurd (ground arith)

  message-Implements :
      (n : Text) (d : Option Text) (fs : Fields) (f : Function)
      → IsFields reg fs
      → StartsWithHeader reg fs
      → IsUnpackable (message n d fs)
      → message_unpack (message n d fs) fs ≡ ok f
      → Implements env f (message n d fs)
  unfolding message_unpack header_function
  message-Implements n d nil f valid starts plain h = absurd starts
  message-Implements n d (field h t e a fs) f valid (eh, found, ea) plain made =
      let et : header_type ≡ t = cc (found, builtins.header) in
      subst₃
        (λ h t a.
          IsFields reg (field h t e a fs)
          → IsUnpackable (message n d (field h t e a fs))
          → message_unpack (message n d (field h t e a fs)) (field h t e a fs) ≡ ok f
          → Implements env f (message n d (field h t e a fs)))
        (sym eh) et (sym ea)
        (λ valid plain made.
          let (body, body_made, h₁) =
            Errors.>>=-eq-ok (struct_unpack_body (field (codes "ss_header") header_type e none fs))
              _ made in
          subst
            (λ f. Implements env f (message n d (field (codes "ss_header") header_type e none fs)))
            (cc) (plain_message-Implements n d e fs body valid plain body_made))
        valid plain made

-- The function that `unpack` generates for a type reads back its values.
pub unpack-Implements :
    (env : Env) (reg : Registry)
    → Callable env reg
    → (t : SsType) (f : Function) → IsType reg t
    → IsUnpackable t
    → unpack t ≡ ok f
    → Implements env f t
unfolding unpack
unpack-Implements env reg callable (primitive n b) f valid plain h =
    let e : primitive_unpack b ≡ f = cc in rw (← e) (primitive-Implements env n b)
unpack-Implements env reg callable (bitfield n d fs b) f valid plain h =
    let e : primitive_unpack b ≡ f = cc in rw (← e) (bitfield-Implements env n d fs b)
unpack-Implements env reg callable (enum n d vs b) f (valid, builtins) plain h =
    let e : enum_unpack b ≡ f = cc in
    rw (← e) (enum-Implements env reg callable n d vs b builtins valid.size.word)
unpack-Implements env reg callable (struct n d fs) f valid plain h =
    let (body, made, h₁) = Errors.>>=-eq-ok (struct_unpack_body fs) _ h in
    let e : fields body ≡ f = cc in
    rw (← e) (struct-Implements env reg callable n d fs body valid plain.0 plain.1 made)
unpack-Implements env reg callable (message n d fs) f (valid, starts, builtins) plain h =
    message-Implements env reg callable builtins n d fs f valid starts plain h
unpack-Implements env reg callable (array t n) f valid plain h = absurd valid
