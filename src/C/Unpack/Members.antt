-- ===== src/C/Unpack/Members.antt =====
-- The members of a struct in the course of an unpacking function: those that are done, then those
-- that are left.
use mathlib.Core.Path.{subst, subst₂, subst₃, ap₂}
use stuff_sack.Prelude.{
  ◌≡◌, refl, ap, false, List, [], ◌∷◌, none, some, arith, length, inl, inr, Bool-cases,
  if◌then◌else◌,
}
use stuff_sack.Prelude.Text.{Text, same, same_refl, same_sym, contains, Distinct}
use stuff_sack.Types.{Fields, nil, field, field_names}
use stuff_sack.C.Generate.{is_aliased, alias_locals}
use stuff_sack.C.Memory.{Value, Members, last, member, get_member, set_member}
use stuff_sack.C.Run.Spec.{HasType, HasFields}
use stuff_sack.C.Unpack.{alias_copies}
use stuff_sack.C.Unpack.Run.{declare_locals, copy_back}
use stuff_sack.C.Unpack.Spec.{received, received_fields}

-- A struct by the values of its fields
abbrev pub members_of : Fields → List Value → Members
members_of (field n t d a fs) (x ∷ xs) = member n x (members_of fs xs)
members_of _ _ = last

abbrev pub HasValues : Fields → List Value → Type 0
HasValues nil [] = Unit
HasValues nil (x ∷ xs) = ⊥
HasValues (field n t d a fs) [] = ⊥
HasValues (field n t d a fs) (x ∷ xs) = HasType t x × HasValues fs xs

pub HasFields-HasValues :
    (fs : Fields) (ms : Members)
    → HasFields fs ms
    → (xs : List Value) × (ms ≡ members_of fs xs) × HasValues fs xs
HasFields-HasValues nil last h = ([], refl, tt)
HasFields-HasValues nil (member m v ms) h = absurd h
HasFields-HasValues (field n t d a fs) last h = absurd h
HasFields-HasValues (field n t d a fs) (member m v ms) (e, fits, h) =
    let (xs, whole, rest) = HasFields-HasValues fs ms h in
    (v ∷ xs, ap₂ (λ m ms. member m v ms) e whole, (fits, rest))

abbrev pub received_values : Fields → List Value → List Value
received_values (field n t d a fs) (x ∷ xs) = received t x ∷ received_values fs xs
received_values _ xs = []

pub received_fields-members :
    (fs : Fields) (xs : List Value)
    → HasValues fs xs
    → received_fields fs (members_of fs xs) ≡ members_of fs (received_values fs xs)
unfolding received_fields
received_fields-members nil [] h = refl
received_fields-members nil (x ∷ xs) h = absurd h
received_fields-members (field n t d a fs) [] h = absurd h
received_fields-members (field n t d a fs) (x ∷ xs) (fits, h) =
    ap (member n (received t x)) (received_fields-members fs xs h)

-- The copies of the aliased fields
abbrev pub aliased_of : Fields → List Value → Members
aliased_of (field n t d a fs) (x ∷ xs) =
    let rest = aliased_of fs xs in if is_aliased a then member n x rest else rest
aliased_of _ _ = last

-- The members before the copies are written back: those of aliased fields are the old ones.
abbrev pub merged : Fields → List Value → List Value → List Value
merged (field n t d a fs) (x ∷ xs) (y ∷ ys) = (if is_aliased a then x else y) ∷ merged fs xs ys
merged _ _ _ = []

abbrev pub join : Members → Members → Members
join last ms = ms
join (member n v da) ms = member n v (join da ms)

pub join-snoc :
    (da ms : Members) (n : Text) (x : Value)
    → join (join da (member n x last)) ms ≡ join da (member n x ms)
join-snoc last ms n x = refl
join-snoc (member m v da) ms n x = ap (member m v) (join-snoc da ms n x)

-- No field's name is among the members.
abbrev pub Absent : Members → Fields → Type 0
Absent da nil = Unit
Absent da (field n t d a fs) = (get_member n da ≡ none) × Absent da fs

pub Absent-last : (fs : Fields) → Absent last fs
unfolding get_member
Absent-last nil = tt
Absent-last (field n t d a fs) = (refl, Absent-last fs)

get_member-snoc :
    (s n : Text) (x : Value) (da : Members)
    → get_member s da ≡ none
    → same n s ≡ false
    → get_member s (join da (member n x last)) ≡ none
unfolding get_member
get_member-snoc s n x last h e = ground arith
get_member-snoc s n x (member m v da) h e = ground (arith, get_member-snoc s n x da)

pub Absent-snoc :
    (da : Members) (n : Text) (x : Value) (fs : Fields)
    → Absent da fs
    → contains (field_names fs) n ≡ false
    → Absent (join da (member n x last)) fs
unfolding field_names contains
Absent-snoc da n x nil h fresh = tt
Absent-snoc da n x (field m t d a fs) (here, h) fresh = (
  get_member-snoc m n x da here (ground (arith, same_sym m n)),
  Absent-snoc da n x fs h (ground arith),
)

pub get_member-join :
    (s : Text) (v : Value) (da ms : Members)
    → get_member s da ≡ none
    → get_member s (join da (member s v ms)) ≡ some v
unfolding get_member
get_member-join s v last ms h = ground (arith, same_refl s)
get_member-join s v (member m u da) ms h = ground (arith, get_member-join s v da ms)

pub set_member-join :
    (s : Text) (v w : Value) (da ms : Members)
    → get_member s da ≡ none
    → set_member s w (join da (member s v ms)) ≡ join da (member s w ms)
unfolding get_member set_member
set_member-join s v w last ms h = ground (arith, same_refl s)
set_member-join s v w (member m u da) ms h = ground (arith, set_member-join s v w da ms)

pub declare_locals-aliased :
    (fs : Fields) (da : Members) (xs : List Value)
    → Distinct (field_names fs)
    → Absent da fs
    → HasValues fs xs
    → declare_locals (alias_locals fs) (join da (members_of fs xs)) ≡ some (aliased_of fs xs)
unfolding declare_locals alias_locals field_names
declare_locals-aliased nil da [] d h fits = refl
declare_locals-aliased nil da (x ∷ xs) d h fits = absurd fits
declare_locals-aliased (field n t e a fs) da [] d h fits = absurd fits
declare_locals-aliased (field n t e a fs) da (x ∷ xs) (fresh, d) (here, h) (x_fits, fits) =
    let rest =
      declare_locals-aliased fs (join da (member n x last)) xs d (Absent-snoc da n x fs h fresh)
        fits in
    let got = get_member-join n x da (members_of fs xs) here in
    let moved =
      subst (λ ms. declare_locals (alias_locals fs) ms ≡ some (aliased_of fs xs))
        (join-snoc da (members_of fs xs) n x) rest in
    elim (Bool-cases (is_aliased a)) [
      | inl aliased ↦ rw (aliased, got, moved) refl
      | inr plain ↦ rw plain moved
    ]

pub copy_back-aliased :
    (fs : Fields) (da dl : Members) (olds news : List Value)
    → Distinct (field_names fs)
    → Absent da fs
    → Absent dl fs
    → HasValues fs olds
    → length news ≡ length olds
    → copy_back
        (alias_copies fs)
        (join dl (aliased_of fs news))
        (join da (members_of fs (merged fs olds news)))
      ≡ some (join da (members_of fs news))
unfolding copy_back alias_copies field_names
copy_back-aliased nil da dl olds news d ha hl fits e = refl
copy_back-aliased (field n t i a fs) da dl [] news d ha hl fits e = absurd fits
copy_back-aliased (field n t i a fs) da dl (x ∷ olds) [] d ha hl fits e = absurd (omega arith)
copy_back-aliased (field n t i a fs) da dl (x ∷ olds) (y ∷ news) (fresh, d) (a_here, ha)
      (l_here, hl) (x_fits, fits) e =
    let mid = members_of fs (merged fs olds news) in
    let step = λ (dl : Members) (hl : Absent dl fs).
      copy_back-aliased fs (join da (member n y last)) dl olds news d
        (Absent-snoc da n y fs ha fresh) hl fits (omega arith) in
    let Goal =
      λ (locals whole final : Members). copy_back (alias_copies fs) locals whole ≡ some final in
    elim (Bool-cases (is_aliased a)) [
      | inl aliased ↦
          rw
            (
              aliased,
              get_member-join n y dl (aliased_of fs news) l_here,
              set_member-join n x y da mid a_here,
            )
            (subst₃ Goal (join-snoc dl (aliased_of fs news) n y) (join-snoc da mid n y)
              (join-snoc da (members_of fs news) n y)
              (step (join dl (member n y last)) (Absent-snoc dl n y fs hl fresh)))
      | inr plain ↦ rw plain (
          subst₂ (Goal (join dl (aliased_of fs news))) (join-snoc da mid n y)
            (join-snoc da (members_of fs news) n y) (step dl hl))
    ]
