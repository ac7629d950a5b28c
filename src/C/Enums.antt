-- ===== src/C/Enums.antt =====
-- The enums that src/c_stuff_sack.py writes into the C header: `SsMsgType` and `SsStatus`, and the
-- same enums as types, which `get_extra_enums` makes for the documentation.
use mathlib.Core.List.{append_assoc, append-nil, map-append}
use mathlib.Core.Path.{subst, subst₂}
use stuff_sack.Prelude.{
  ℕ, zero, suc, ◌+◌, ◌≡◌, refl, ap, sym, ◌∙◌, false, inl, List, [], ◌∷◌, ◌++◌, map, Option, none,
  some, length, get_elem?, arith, if◌then◌else◌,
}
use stuff_sack.Prelude.Text.{Text, codes, same, same_refl, same_sym, contains, Distinct}
use stuff_sack.Prelude.Int.{ℤ, pos, negsuc}
use stuff_sack.Errors
use stuff_sack.Errors.{Result, ok, ◌>>=◌, ◌>>◌}
use stuff_sack.Types.{
  EnumValue, SsType, primitive, bitfield, enum, struct, message, array, root_name,
}
use stuff_sack.Spec.Build.{Registry, check_new, add_value, value_names}
use stuff_sack.Spec.WellFormed.{Numbered, IsEnum}
use stuff_sack.Spec.WellFormed.Loops.{add_value_cases, add_value-IsEnum}

unfoldable numbered_types : ℕ → List SsType → List (Text × ℤ)
unfolding root_name
numbered_types i [] = []
numbered_types i (m ∷ ms) = (codes "kSsMsgType" ++ root_name m, pos i) ∷ numbered_types (suc i) ms

-- `message_type_enum`: the enumerators with their values
unfoldable pub message_type_enum : List SsType → List (Text × ℤ)
unfolding numbered_types
message_type_enum messages =
    (codes "kSsMsgTypeForceSigned", negsuc 0)
    ∷ (numbered_types 0 messages
        ++ (codes "kSsMsgTypeUnknown", pos (length messages))
          ∷ (codes "kNumSsMsgType", pos (length messages + 1))
          ∷ [])

-- `description`
unfoldable pub description : SsType → Option Text
description (primitive n b) = none
description (bitfield n d fs b) = d
description (enum n d vs b) = d
description (struct n d fs) = d
description (message n d fs) = d
description (array t n) = none

-- The loop over the messages in `get_extra_enums`
unfoldable pub message_values : List SsType → List EnumValue → ℕ → Result (List EnumValue × ℕ)
unfolding add_value description root_name
message_values [] vs b = ok (vs, b)
message_values (m ∷ ms) vs b = do
  r ← add_value (codes "SsMsgType") vs (root_name m) (description m)
  message_values ms r.0 r.1

-- `get_extra_enums`, over the registry of `DataType`
unfoldable pub get_extra_enums : Registry → List SsType → Result (SsType × SsType)
unfolding check_new message_values add_value
get_extra_enums reg messages = do
  check_new (codes "SsMsgType") reg
  named ← message_values messages [] 1
  types ←
      add_value (codes "SsMsgType") named.0 (codes "Unknown") (some (codes "Unknown message type."))
  let msg_type = enum (codes "SsMsgType") (some (codes "Message types.")) types.0 types.1
  check_new (codes "SsStatus") (reg ++ msg_type ∷ [])
  one ← add_value (codes "SsStatus") [] (codes "Success") (some (codes "Success."))
  two ←
      add_value (codes "SsStatus") one.0 (codes "InvalidUid") (some (codes "Invalid message UID."))
  three ←
      add_value (codes "SsStatus") two.0 (codes "InvalidLen")
        (some (codes "Invalid message length."))
  ok (msg_type, enum (codes "SsStatus") (some (codes "Stuff Sack status code.")) three.0 three.1)

-- The value of an enumerator
unfoldable pub enumerator : Text → List (Text × ℤ) → Option ℤ
enumerator s [] = none
enumerator s ((name, value) ∷ es) = if same name s then some value else enumerator s es

message_values-IsEnum :
    (ms : List SsType) (vs vs' : List EnumValue) (b b' : ℕ)
    → IsEnum vs b
    → message_values ms vs b ≡ ok (vs', b')
    → IsEnum vs' b' × (value_names vs' ≡ value_names vs ++ map root_name ms)
unfolding message_values
message_values-IsEnum [] vs vs' b b' valid h =
    let same_values : vs ≡ vs' = cc in
    let same_bytes : b ≡ b' = cc in
    (
      subst₂ IsEnum same_values same_bytes valid,
      ap value_names (sym same_values) ∙ sym (append-nil (value_names vs)),
    )
message_values-IsEnum (m ∷ ms) vs vs' b b' valid h =
    let ((vs₁, b₁), added, looped) =
      Errors.>>=-eq-ok (add_value (codes "SsMsgType") vs (root_name m) (description m)) _ h in
    let (fresh, grown, sized) =
      add_value_cases (codes "SsMsgType") vs vs₁ (root_name m) (description m) b₁ added in
    let (valid', names) =
      message_values-IsEnum ms vs₁ vs' b₁ b'
        (add_value-IsEnum (codes "SsMsgType") vs vs₁ (root_name m) (description m) b b₁ valid added)
        looped in
    (
      valid',
      names
          ∙ rw (grown, map-append)
              (append_assoc (value_names vs) (root_name m ∷ []) (map root_name ms)),
    )

fresh-other :
    (vs : List EnumValue) (s : Text) (i : ℕ) (v : EnumValue)
    → contains (value_names vs) s ≡ false
    → get_elem? vs i ≡ some v
    → same v.name s ≡ false
unfolding contains
fresh-other [] s i v fresh h = absurd (ground arith)
fresh-other (u ∷ vs) s zero v fresh h =
    let e : u ≡ v = cc in subst (λ v. same v.name s ≡ false) e (ground arith)
fresh-other (u ∷ vs) s (suc i) v fresh h = fresh-other vs s i v (ground arith) h

enumerator-numbered_types :
    (ms : List SsType) (vs : List EnumValue) (rest : List (Text × ℤ)) (k i : ℕ) (v : EnumValue)
    → value_names vs ≡ map root_name ms ++ codes "Unknown" ∷ []
    → Numbered k vs
    → Distinct (value_names vs)
    → get_elem? vs i ≡ some v
    → enumerator
        (codes "kSsMsgType" ++ v.name)
        (numbered_types k ms ++ (codes "kSsMsgTypeUnknown", pos (k + length ms)) ∷ rest)
      ≡ some (pos v.value)
unfolding enumerator numbered_types same
enumerator-numbered_types ms [] rest k i v names numbered distinct h = absurd (ground arith)
enumerator-numbered_types [] (u ∷ []) rest k zero v names (first, none_left) distinct h =
    let same_value : u ≡ v = cc in
    let name : v.name ≡ codes "Unknown" = cc in
    let at_k : k + 0 ≡ v.value = omega (arith, ap (λ v. v.value) same_value) in
    rw name (ap (λ n. some (pos n)) at_k)
enumerator-numbered_types [] (u ∷ []) rest k (suc i) v names numbered distinct h =
    absurd (ground arith)
enumerator-numbered_types [] (u ∷ w ∷ vs) rest k i v names numbered distinct h =
    absurd (ground arith)
enumerator-numbered_types (m ∷ ms) (u ∷ vs) rest k zero v names (first, numbered) distinct h =
    let same_value : u ≡ v = cc in
    let name : v.name ≡ root_name m = cc in
    let at_k : k ≡ v.value = omega (arith, ap (λ v. v.value) same_value) in
    rw (name, same_refl (root_name m)) (ap (λ n. some (pos n)) at_k)
enumerator-numbered_types (m ∷ ms) (u ∷ vs) rest k (suc i) v names (first, numbered)
      (fresh, distinct) h =
    let name : u.name ≡ root_name m = cc in
    let rest_names : value_names vs ≡ map root_name ms ++ codes "Unknown" ∷ [] = cc in
    let differ : same (root_name m) v.name ≡ false =
      same_sym (root_name m) v.name
      ∙ subst (λ s. same v.name s ≡ false) name (fresh-other vs u.name i v fresh h) in
    let moved : suc k + length ms ≡ k + suc (length ms) = omega arith in
    rw differ (
      subst
        (λ n.
          enumerator (codes "kSsMsgType" ++ v.name)
            (numbered_types (suc k) ms ++ (codes "kSsMsgTypeUnknown", pos n) ∷ rest)
          ≡ some (pos v.value))
        moved (enumerator-numbered_types ms vs rest (suc k) i v rest_names numbered distinct h))

no_values-IsEnum : IsEnum [] 1
no_values-IsEnum = record {
  numbered = tt;
  distinct = tt;
  size = record { word = inl refl; fits = omega arith; least = inl refl };
}

-- The enums of `get_extra_enums`
record Extra (ms : List SsType) (types : List EnumValue) (b : ℕ) : Type 0 where
  named : List EnumValue
  named_bytes : ℕ
  made : message_values ms [] 1 ≡ ok (named, named_bytes)
  added :
      add_value (codes "SsMsgType") named (codes "Unknown") (some (codes "Unknown message type."))
      ≡ ok (types, b)

enum-injective :
    (n m : Text) (d e : Option Text) (vs ws : List EnumValue) (b c : ℕ) (s t : SsType)
    → ◌≡◌ {A = Result (SsType × SsType)} (ok (enum n d vs b, s)) (ok (enum m e ws c, t))
    → (vs ≡ ws) × (b ≡ c)
enum-injective n m d e vs ws b c s t h = (cc, cc)

get_extra_enums-Extra :
    (reg : Registry) (ms : List SsType) (n : Text) (d : Option Text) (types : List EnumValue)
    (b : ℕ) (status : SsType)
    → get_extra_enums reg ms ≡ ok (enum n d types b, status)
    → Extra ms types b
unfolding get_extra_enums
get_extra_enums-Extra reg ms n d types b status h =
    let (u, new, h₁) = Errors.>>=-eq-ok (check_new (codes "SsMsgType") reg) _ h in
    let ((named, k), made, h₂) = Errors.>>=-eq-ok (message_values ms [] 1) _ h₁ in
    let ((types', b₁), added, h₃) =
      Errors.>>=-eq-ok (add_value (codes "SsMsgType") named (codes "Unknown") _) _ h₂ in
    let (w, new', h₄) =
      Errors.>>=-eq-ok
        (check_new (codes "SsStatus")
          (reg ++ enum (codes "SsMsgType") (some (codes "Message types.")) types' b₁ ∷ []))
        _ h₃ in
    let (one, added₁, h₅) =
      Errors.>>=-eq-ok (add_value (codes "SsStatus") [] (codes "Success") _) _ h₄ in
    let (two, added₂, h₆) =
      Errors.>>=-eq-ok (add_value (codes "SsStatus") one.0 (codes "InvalidUid") _) _ h₅ in
    let (three, added₃, h₇) =
      Errors.>>=-eq-ok (add_value (codes "SsStatus") two.0 (codes "InvalidLen") _) _ h₆ in
    let (same_types, same_bytes) = enum-injective _ n _ d types' types b₁ b _ status h₇ in
    record {
      named = named;
      named_bytes = k;
      made = made;
      added =
          subst₂
            (λ vs b.
              add_value (codes "SsMsgType") named (codes "Unknown")
                (some (codes "Unknown message type."))
              ≡ ok (vs, b))
            same_types same_bytes added;
    }

-- When `get_extra_enums` returns, its enum of the message types is well formed, its values are the
-- messages in order and then Unknown, and every value but one called ForceSigned is that of its
-- enumerator in the `SsMsgType` of the C header.
pub get_extra_enums-as_c :
    (reg : Registry) (ms : List SsType) (n : Text) (d : Option Text) (types : List EnumValue)
    (b : ℕ) (status : SsType)
    → get_extra_enums reg ms ≡ ok (enum n d types b, status)
    → IsEnum types b
      × (value_names types ≡ map root_name ms ++ codes "Unknown" ∷ [])
      × ((i : ℕ) (v : EnumValue)
          → get_elem? types i ≡ some v
          → same (codes "ForceSigned") v.name ≡ false
          → enumerator (codes "kSsMsgType" ++ v.name) (message_type_enum ms) ≡ some (pos v.value))
unfolding enumerator message_type_enum same
get_extra_enums-as_c reg ms n d types b status h =
    let x = get_extra_enums-Extra reg ms n d types b status h in
    let (valid, names) =
      message_values-IsEnum ms [] x.named 1 x.named_bytes no_values-IsEnum x.made in
    let (fresh, grown, sized) =
      add_value_cases (codes "SsMsgType") x.named types (codes "Unknown") _ b x.added in
    let is_enum =
      add_value-IsEnum (codes "SsMsgType") x.named types (codes "Unknown") _ x.named_bytes b valid
        x.added in
    let all_names : value_names types ≡ map root_name ms ++ codes "Unknown" ∷ [] =
      rw (grown, map-append, names) refl in
    (
      is_enum,
      all_names,
      λ i v at_i other.
          let no_more : 0 + length ms ≡ length ms = omega arith in
          let rest = (codes "kNumSsMsgType", pos (length ms + 1)) ∷ [] in
          rw other (
            subst
              (λ n.
                enumerator (codes "kSsMsgType" ++ v.name)
                  (numbered_types 0 ms ++ (codes "kSsMsgTypeUnknown", pos n) ∷ rest)
                ≡ some (pos v.value))
              no_more
              (enumerator-numbered_types ms types rest 0 i v all_names is_enum.numbered
                is_enum.distinct at_i)),
    )
