-- ===== src/C/Unpack/Rejects.antt =====
-- What the unpacking function of a message does with any header.
use mathlib.Core.Path.{subst}
use stuff_sack.Prelude.{ℕ, ◌^◌, ◌≡◌, ◌<◌, refl, sym, List, Option, none, arith}
use stuff_sack.Prelude.Text.{Text, codes}
use stuff_sack.Errors
use stuff_sack.Errors.{ok}
use stuff_sack.Types.{SsType, message, Fields, nil, field, packed_size, uid}
use stuff_sack.Names.{unpack_function_name}
use stuff_sack.Spec.Build.{Registry}
use stuff_sack.Spec.WellFormed.{StartsWithHeader, Builtins, header_type}
use stuff_sack.C.Memory.{Value, block, Members, member, ◌>>=◌}
use stuff_sack.C.Run.Spec.{HasType, encode, encode_fields}
use stuff_sack.C.Unpack.{
  Body, Function, checked, struct_unpack_body, header_function, message_unpack, unpack,
}
use stuff_sack.C.Unpack.Run.{Env, Unpack, get_function, check_header}
use stuff_sack.C.Unpack.Calls.{Holds}
use stuff_sack.C.Unpack.Functions.{IsUnpackable}
use stuff_sack.C.Unpack.Headers.{header_bytes, with_header, message-block, checked-run}
use stuff_sack.C.Unpack.Located.{Located}

abbrev pub call_unpack : Env → Text → Unpack
call_unpack env s buf k v = get_function s env >>= λ f. f buf k v

-- The fields of a message are the header and others.
pub record Headed (fs : Fields) : Type 0 where
  pub description : Option Text
  pub behind : Fields
  pub whole : fs ≡ field (codes "ss_header") header_type description none behind

pub StartsWithHeader-Headed :
    (reg : Registry) (fs : Fields) → StartsWithHeader reg fs → Builtins reg → Headed fs
StartsWithHeader-Headed reg nil starts builtins = absurd starts
StartsWithHeader-Headed reg (field h t e a fs) (eh, found, ea) builtins = record {
  description = e;
  behind = fs;
  whole = cc (found, builtins.header, eh, ea);
}

-- The checks that a call of a message's function comes to
pub record Checks (env : Env) (t : SsType) (buf : List ℕ) (k : ℕ) (old : Value)
    (got_uid got_len : ℕ) : Type 0 where
  pub calls : Env
  pub body : Body
  pub header : Value
  pub behind : Members
  pub whole : old ≡ block (member (codes "ss_header") header behind)
  pub called :
      call_unpack env (unpack_function_name t) buf k old
      ≡ check_header calls (uid t) (packed_size t) body buf k (with_header got_uid got_len behind)

unpack-checked :
    (n : Text) (d e : Option Text) (fs : Fields) (f : Function)
    → let t = message n d (field (codes "ss_header") header_type e none fs) in
      unpack t ≡ ok f
      → (body : Body) × (checked (unpack_function_name header_type) (uid t) (packed_size t) body
          ≡ f)
unfolding unpack message_unpack header_function
unpack-checked n d e fs f h =
    let (body, made, h₁) =
      Errors.>>=-eq-ok (struct_unpack_body (field (codes "ss_header") header_type e none fs)) _ h in
    (body, cc)

module _ (env : Env) (n : Text) (d : Option Text) (buf rest : List ℕ) (k got_uid got_len : ℕ)
    (old : Value) where
  plain-Checks :
      (e : Option Text) (fs : Fields)
      → let t = message n d (field (codes "ss_header") header_type e none fs) in
        Located env t
        → got_uid < 2 ^ 32
        → got_len < 2 ^ 16
        → HasType t old
        → Holds buf k (header_bytes got_uid got_len rest)
        → Checks env t buf k old got_uid got_len
  plain-Checks e fs l u_lt len_lt fits h =
      let t = message n d (field (codes "ss_header") header_type e none fs) in
      let (body, made) = unpack-checked n d e fs l.function l.made in
      let (header, behind, whole, header_fits, behind_fits) = message-block n d e fs old fits in
      record {
        calls = l.calls;
        body = body;
        header = header;
        behind = behind;
        whole = whole;
        called =
            rw (l.found, whole, ← made)
              (checked-run l.calls l.before l.callable l.valid.2 (uid t) (packed_size t) body
                got_uid got_len k rest buf header behind u_lt len_lt header_fits h);
      }

  pub message-Checks :
      (fs : Fields)
      → Located env (message n d fs)
      → got_uid < 2 ^ 32
      → got_len < 2 ^ 16
      → HasType (message n d fs) old
      → Holds buf k (header_bytes got_uid got_len rest)
      → Checks env (message n d fs) buf k old got_uid got_len
  message-Checks fs l u_lt len_lt fits h =
      let headed = StartsWithHeader-Headed l.before fs l.valid.1 l.valid.2 in
      let e = headed.whole in
      subst (λ fs. Checks env (message n d fs) buf k old got_uid got_len) (sym e)
        (plain-Checks headed.description headed.behind
          (subst (λ fs. Located env (message n d fs)) e l) u_lt len_lt
          (subst (λ fs. HasType (message n d fs) old) e fits) h)

-- The bytes of a message begin with its header.
pub encode-header :
    (n : Text) (d : Option Text) (fs : Fields) (v : Value)
    → Headed fs
    → HasType (message n d fs) v
    → (rest : List ℕ) × (encode (message n d fs) v
        ≡ header_bytes (uid (message n d fs)) (packed_size (message n d fs)) rest)
unfolding encode
encode-header n d nil v h fits = absurd (ground (arith, h.whole))
encode-header n d (field s t e a fs) (block (member m v ms)) h fits = (encode_fields fs ms, refl)
encode-header n d (field s t e a fs) _ h fits = absurd (ground arith)

pub IsUnpackable-short :
    (n : Text) (d : Option Text) (fs : Fields)
    → Headed fs
    → IsUnpackable (message n d fs)
    → packed_size (message n d fs) < 2 ^ 16
IsUnpackable-short n d nil h plain = absurd (ground (arith, h.whole))
IsUnpackable-short n d (field s t e a fs) h plain = plain.1
