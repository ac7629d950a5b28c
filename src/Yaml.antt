-- ===== src/Yaml.antt =====
-- YAML values as `yaml.unsafe_load` hands them over, and the `_yaml_check_*` helpers of
-- src/stuff_sack.py. A `dict` is the list of its items in order.
use stuff_sack.Prelude.{
  Bool, true, false, not, ◌||◌, List, [], ◌∷◌, ◌++◌, Option, none, some, ◌==◌, if◌then◌else◌,
}
use stuff_sack.Prelude.Text.{Text, codes, same}
use stuff_sack.Prelude.Int.{ℤ}
use stuff_sack.Errors.{
  spec_parse_error, key_error, attribute_error, Result, ok, err, ◌>>◌, require, not_a_map,
  not_a_list, key_not_string, many_fields, bad_description, bad_alias, unknown_field,
  unknown_metadata, missing_field,
}

-- `other` is any scalar that is no `str`, `int` or `None`, such as a float or a date.
mutual
  pub data Yaml : Type 0 where
    null other : Yaml
    bool : Bool → Yaml
    int : ℤ → Yaml
    str : Text → Yaml
    seq : Items → Yaml
    dict : Entries → Yaml

  pub data Items : Type 0 where
    nil : Items
    cons : Yaml → Items → Items

  pub data Entries : Type 0 where
    end : Entries
    entry : Yaml → Yaml → Entries → Entries

-- `isinstance(v, str)`
unfoldable pub is_str : Yaml → Bool
is_str (str s) = true
is_str _ = false

-- `isinstance(v, dict)`
unfoldable pub is_dict : Yaml → Bool
is_dict (dict m) = true
is_dict _ = false

-- `v == s` for a string `s`
unfoldable pub is_text : Text → Yaml → Bool
is_text s (str t) = same t s
is_text s _ = false

-- `d.get(s)` for a string `s`
unfoldable pub get : Text → Entries → Option Yaml
unfolding is_text
get s end = none
get s (entry k v m) = if is_text s k then some v else get s m

-- `k in keys` for a list of strings `keys`
unfoldable pub listed : List Text → Yaml → Bool
unfolding is_text
listed [] k = false
listed (s ∷ ss) k = is_text s k || listed ss k

-- `for key in required_fields: if key not in yaml: raise`
unfoldable pub check_required : List Text → Entries → Result (Unit {0})
unfolding get
check_required [] m = ok tt
check_required (s ∷ ss) m = elim (get s m) [
  | none ↦ err (spec_parse_error (missing_field s))
  | some v ↦ check_required ss m
]

-- `for key in yaml.keys(): if key not in valid_fields: raise`
unfoldable pub check_known : List Text → Entries → Result (Unit {0})
unfolding listed
check_known valid end = ok tt
check_known valid (entry k v m) = do require (listed valid k) unknown_field; check_known valid m

-- `_yaml_check_map`; the dictionary is returned, for the reads that follow.
unfoldable pub check_map : Yaml → List Text → List Text → Bool → Result Entries
unfolding check_required check_known
check_map (dict m) required optional check_valid = do
  check_required required m
  if check_valid then check_known (required ++ optional) m else ok tt
  ok m
check_map _ required optional check_valid = err (spec_parse_error not_a_map)

-- `key.startswith('_')`
unfoldable pub is_meta : Text → Bool
is_meta [] = false
is_meta (c ∷ s) = c == b'_'

-- `_yaml_get_from_map_with_meta`
unfoldable pub get_from_map_with_meta : Entries → Result (Text × Yaml)
unfolding is_meta
get_from_map_with_meta end = err key_error
get_from_map_with_meta (entry (str s) v m) =
    if is_meta s then get_from_map_with_meta m else ok (s, v)
get_from_map_with_meta (entry _ v m) = err attribute_error

-- The branch of `_yaml_check_map_with_meta` for a key with a leading underscore.
unfoldable pub check_metadata : Text → Yaml → Result (Unit {0})
unfolding is_str is_dict
check_metadata s v =
    if same s (codes "_description")
    then require (is_str v) bad_description
    else if same s (codes "_alias")
    then require (is_dict v) bad_alias
    else err (spec_parse_error (unknown_metadata s))

-- The loop of `_yaml_check_map_with_meta`, with its flag `found_non_meta`.
unfoldable pub check_entries : Bool → Entries → Result (Unit {0})
unfolding is_meta check_metadata
check_entries found end = ok tt
check_entries found (entry (str s) v m) = do
  if is_meta s then check_metadata s v else require (not found) many_fields
  check_entries (found || not (is_meta s)) m
check_entries found (entry _ v m) = err (spec_parse_error key_not_string)

-- `_yaml_check_map_with_meta`
unfoldable pub check_map_with_meta : Yaml → Result Entries
unfolding check_entries
check_map_with_meta (dict m) = do check_entries false m; ok m
check_map_with_meta _ = err (spec_parse_error not_a_map)

-- `_yaml_check_array`
unfoldable pub check_array : Yaml → Result Items
check_array (seq xs) = ok xs
check_array _ = err (spec_parse_error not_a_list)
