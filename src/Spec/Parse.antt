-- ===== src/Spec/Parse.antt =====
-- `reset_types` and `parse_yaml`. The file's parsed YAML is an argument.
use stuff_sack.Prelude.{ℕ, false, List, [], ◌∷◌, Option, ◌==◌, if◌then◌else◌}
use stuff_sack.Prelude.Text.{Text, codes}
use stuff_sack.Errors.{assertion_error, Result, ok, err, ◌>>=◌, ◌>>◌}
use stuff_sack.Yaml.{Yaml, Entries, end, entry, check_map}
use stuff_sack.Types.{SsType, root_name, uid}
use stuff_sack.Spec.Build.{Registry, new_primitive, new_header}
use stuff_sack.Spec.FromYaml.{from_yaml}

-- The class attributes `DataType.all_types` and `DataType.config`
pub record ClassState : Type 0 where
  pub all_types : Registry
  pub alias_tag : Option Text

unfoldable pub new_primitives : List (Text × ℕ) → Registry → Result Registry
unfolding new_primitive
new_primitives [] reg = ok reg
new_primitives ((name, bytes) ∷ ps) reg = do
  reg' ← new_primitive name bytes reg
  new_primitives ps reg'

abbrev pub primitives : List (Text × ℕ)
primitives =
    (codes "uint8", 1)
    ∷ (codes "uint16", 2)
    ∷ (codes "uint32", 4)
    ∷ (codes "uint64", 8)
    ∷ (codes "int8", 1)
    ∷ (codes "int16", 2)
    ∷ (codes "int32", 4)
    ∷ (codes "int64", 8)
    ∷ (codes "bool", 1)
    ∷ (codes "float", 4)
    ∷ (codes "double", 8)
    ∷ []

-- `reset_types`: the new `all_types`
unfoldable pub reset_types : Result Registry
unfolding new_primitives new_header
reset_types = do reg ← new_primitives primitives []; new_header reg

-- `for name, info in type_map.items(): DataType.from_yaml(name, info)`
unfoldable pub types_loop : Option Text → Entries → Registry → Result Registry
types_loop tag end reg = ok reg
types_loop tag (entry name info m) reg = do
  reg' ← from_yaml tag name info reg
  types_loop tag m reg'

-- The inner loop of the search for collisions, for the type called `name` of unique id `u`
unfoldable pub check_against : Text → ℕ → List SsType → Result (Unit {0})
check_against name u [] = ok tt
check_against name u (t ∷ ts) =
    if u == uid t then err (assertion_error name (root_name t)) else check_against name u ts

-- The outer loop
unfoldable pub check_collisions : List SsType → Result (Unit {0})
unfolding check_against
check_collisions [] = ok tt
check_collisions (t ∷ ts) = do check_against (root_name t) (uid t) ts; check_collisions ts

-- `parse_yaml`: the types, and the class attributes that it leaves. Those that it finds are reset
-- before anything reads them.
unfoldable pub parse_yaml : Yaml → Option Text → Result (List SsType × ClassState)
unfolding reset_types types_loop check_collisions
parse_yaml yaml tag = do
  type_map ← check_map yaml [] [] false
  reg ← reset_types
  all_types ← types_loop tag type_map reg
  fresh ← reset_types
  check_collisions all_types
  ok (all_types, record { all_types = fresh; alias_tag = tag })
