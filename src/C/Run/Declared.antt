-- ===== src/C/Run/Declared.antt =====
-- The local copies of aliased fields are declared with the types of the functions that are called on
-- them.
use mathlib.Core.List.{append-nil}
use mathlib.Core.Path.{subst}
use stuff_sack.Prelude.{
  ℕ, ◌+◌, ◌≡◌, refl, ap, sym, true, false, Bool, ◌&&◌, not, List, [], ◌∷◌, ◌++◌, Option, some,
  arith, if◌then◌else◌, inl, inr, Bool-cases,
}
use stuff_sack.Prelude.Text.{Text, codes, same_refl, same_sym, contains, Distinct}
use stuff_sack.Errors
use stuff_sack.Errors.{ok}
use stuff_sack.Types.{
  SsType, primitive, bitfield, enum, struct, message, array, Fields, nil, field, field_names,
  packed_size, root_type, root_name, type_name, all_lengths, bracketed,
}
use stuff_sack.Names.{snake_to_camel, pack_function_name, c_field_name}
use stuff_sack.C.Syntax.{Offset, at, Place, Stmt, call}
use stuff_sack.C.Generate.{array_pack, is_aliased, alias_locals, field_pack, fields_pack}
use stuff_sack.C.Run.{is_c_type, callee, target, bounds, find_local, takes, compiles}
use stuff_sack.C.Run.Spec.{AliasesCompile}
use stuff_sack.C.Run.Calls.{named_pack-cases, nested_pack-cases}

-- What a statement that packs the field `n` of type `t` is
record Packs (n : Text) (b : Bool) (t : SsType) (s : Stmt) : Type 0 where
  called : callee s ≡ pack_function_name (root_type t)
  name : (target s).name ≡ n
  local : (target s).local ≡ b
  dimensions : bounds s ≡ all_lengths t

array_pack-Packs :
    (t : SsType) (m : ℕ) (p : Place) (off : Offset) (i : ℕ) (s : Stmt)
    → array_pack p t m off i ≡ ok s
    → Packs p.name p.local (array t m) s
unfolding root_type all_lengths
array_pack-Packs (array t l) m p off i s h =
    let (inner, made, e) = nested_pack-cases p t l m off i s h in
    let rest = array_pack-Packs t l _ _ (i + 1) inner made in
    rw e (record {
      called = rest.called;
      name = rest.name;
      local = rest.local;
      dimensions = ap (λ ns. m ∷ ns) rest.dimensions;
    })
array_pack-Packs (primitive n b) m p off i s h =
    rw (named_pack-cases p (primitive n b) m off i s tt h)
      (record { called = refl; name = refl; local = refl; dimensions = refl })
array_pack-Packs (bitfield n d fs b) m p off i s h =
    rw (named_pack-cases p (bitfield n d fs b) m off i s tt h)
      (record { called = refl; name = refl; local = refl; dimensions = refl })
array_pack-Packs (enum n d vs b) m p off i s h =
    rw (named_pack-cases p (enum n d vs b) m off i s tt h)
      (record { called = refl; name = refl; local = refl; dimensions = refl })
array_pack-Packs (struct n d fs) m p off i s h =
    rw (named_pack-cases p (struct n d fs) m off i s tt h)
      (record { called = refl; name = refl; local = refl; dimensions = refl })
array_pack-Packs (message n d fs) m p off i s h =
    rw (named_pack-cases p (message n d fs) m off i s tt h)
      (record { called = refl; name = refl; local = refl; dimensions = refl })

named-Packs :
    (n : Text) (a : Option Text) (t : SsType) (off : ℕ) (s : Stmt)
    → root_type t ≡ t
    → all_lengths t ≡ []
    → call (pack_function_name t) (record { local = is_aliased a; name = n; indices = [] }) (at off)
      ≡ s
    → Packs n (is_aliased a) t s
named-Packs n a t off s root lengths e = rw (← e) (record {
  called = ap pack_function_name (sym root);
  name = refl;
  local = refl;
  dimensions = sym lengths;
})

field_pack-Packs :
    (n : Text) (t : SsType) (a : Option Text) (off : ℕ) (s : Stmt)
    → field_pack n t a off ≡ ok s
    → Packs n (is_aliased a) t s
unfolding field_pack root_type all_lengths
field_pack-Packs n (array t m) a off s h = array_pack-Packs t m _ (at off) b'i' s h
field_pack-Packs n (primitive m b) a off s h = named-Packs n a (primitive m b) off s refl refl (cc)
field_pack-Packs n (bitfield m d fs b) a off s h =
    named-Packs n a (bitfield m d fs b) off s refl refl (cc)
field_pack-Packs n (enum m d vs b) a off s h = named-Packs n a (enum m d vs b) off s refl refl (cc)
field_pack-Packs n (struct m d fs) a off s h = named-Packs n a (struct m d fs) off s refl refl (cc)
field_pack-Packs n (message m d fs) a off s h =
    named-Packs n a (message m d fs) off s refl refl (cc)

type_name-root : (t : SsType) → type_name (root_type t) ≡ root_name t
unfolding type_name root_type root_name bracketed all_lengths
type_name-root (array t n) = type_name-root t
type_name-root (primitive n b) = append-nil n
type_name-root (bitfield n d fs b) = append-nil n
type_name-root (enum n d vs b) = append-nil n
type_name-root (struct n d fs) = append-nil n
type_name-root (message n d fs) = append-nil n

called-root :
    (t : SsType) → pack_function_name (root_type t) ≡ codes "SsPack" ++ snake_to_camel (root_name t)
unfolding pack_function_name
called-root t = ap (λ n. codes "SsPack" ++ snake_to_camel n) (type_name-root t)

takes-field :
    (n : Text) (t : SsType) (s : Stmt)
    → Packs n true t s
    → is_c_type (root_name t) ≡ true
    → takes s (some (root_name t, c_field_name n t (codes "_"))) ≡ true
unfolding takes c_field_name
takes-field n t s packs known =
    rw
      (
        known,
        packs.called,
        called-root t,
        packs.name,
        packs.dimensions,
        same_refl (codes "SsPack" ++ snake_to_camel (root_name t)),
        same_refl (codes "_" ++ n ++ bracketed (all_lengths t)),
      )
      refl

-- Each aliased field has a declaration among the locals.
abbrev Declared : List (Text × Text × Text) → Fields → Type 0
Declared ls nil = Unit
Declared ls (field n t d a fs) =
    (is_aliased a ≡ true → find_local n ls ≡ some (root_name t, c_field_name n t (codes "_")))
    × Declared ls fs

Declared-cons :
    (s : Text) (type : Text) (declared : Text) (ls : List (Text × Text × Text)) (fs : Fields)
    → contains (field_names fs) s ≡ false
    → Declared ls fs
    → Declared ((s, type, declared) ∷ ls) fs
unfolding contains field_names find_local
Declared-cons s type declared ls nil fresh h = tt
Declared-cons s type declared ls (field n t d a fs) fresh (h, hs) = (
  λ e. let got = h e in ground (arith, same_sym s n),
  Declared-cons s type declared ls fs (ground arith) hs,
)

module _ (n : Text) (t : SsType) (d a : Option Text) (fs : Fields) where
  alias_locals-yes :
      is_aliased a ≡ true
      → alias_locals (field n t d a fs)
        ≡ (n, root_name t, c_field_name n t (codes "_")) ∷ alias_locals fs
  unfolding alias_locals
  alias_locals-yes h = rw h refl

  alias_locals-no : is_aliased a ≡ false → alias_locals (field n t d a fs) ≡ alias_locals fs
  unfolding alias_locals
  alias_locals-no h = rw h refl

alias_locals-Declared : (fs : Fields) → Distinct (field_names fs) → Declared (alias_locals fs) fs
unfolding field_names find_local
alias_locals-Declared nil d = tt
alias_locals-Declared (field n t e a fs) (fresh, d) =
    let rest = alias_locals-Declared fs d in
    elim (Bool-cases (is_aliased a)) [
      | inl yes_alias ↦
          subst (λ ls. Declared ls (field n t e a fs)) (sym (alias_locals-yes n t e a fs yes_alias))
            (
              λ h. rw (same_refl n) refl,
              Declared-cons n (root_name t) (c_field_name n t (codes "_")) (alias_locals fs) fs
                  fresh rest,
            )
      | inr no_alias ↦
          subst (λ ls. Declared ls (field n t e a fs)) (sym (alias_locals-no n t e a fs no_alias))
            (λ h. absurd (ground arith), rest)
    ]

statement-compiles :
    (ls : List (Text × Text × Text)) (n : Text) (t : SsType) (b : Bool) (s : Stmt)
    → Packs n b t s
    → (b ≡ true → find_local n ls ≡ some (root_name t, c_field_name n t (codes "_")))
    → (b && not (is_c_type (root_name t))) ≡ false
    → (if (target s).local then takes s (find_local (target s).name ls) else true) ≡ true
statement-compiles ls n t false s packs declared known = rw packs.local refl
statement-compiles ls n t true s packs declared known =
    rw (packs.local, packs.name, declared refl) (takes-field n t s packs (ground arith))

fields_pack-compiles :
    (ls : List (Text × Text × Text)) (fs : Fields) (off : ℕ) (ss : List Stmt)
    → fields_pack fs off ≡ ok ss
    → Declared ls fs
    → AliasesCompile fs
    → compiles ls ss ≡ true
unfolding fields_pack compiles
fields_pack-compiles ls nil off ss h declared known = let e : [] ≡ ss = cc in rw (← e) refl
fields_pack-compiles ls (field n t d a fs) off ss h (here, declared) (known, knowns) =
    let (s, made, h₁) = Errors.>>=-eq-ok (field_pack n t a off) _ h in
    let (rest, looped, h₂) = Errors.>>=-eq-ok (fields_pack fs (off + packed_size t)) _ h₁ in
    let e : s ∷ rest ≡ ss = cc in
    rw
      (
        ← e,
        statement-compiles ls n t (is_aliased a) s (field_pack-Packs n t a off s made) here known,
      )
      (fields_pack-compiles ls fs (off + packed_size t) rest looped declared knowns)

-- The body that `struct_pack_body` writes compiles.
pub body-compiles :
    (fs : Fields) (ss : List Stmt)
    → Distinct (field_names fs)
    → fields_pack fs 0 ≡ ok ss
    → AliasesCompile fs
    → compiles (alias_locals fs) ss ≡ true
body-compiles fs ss d made known =
    fields_pack-compiles (alias_locals fs) fs 0 ss made (alias_locals-Declared fs d) known
