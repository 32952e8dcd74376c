-- ===== src/Ldap/PlatformIds.antt =====
-- lookup/plugins/ldap_ad.py: the platform ids that an attribute of a directory entry holds.
--
-- Parameters: the entry, and `json.loads`.
pub mod Lines
mod Tests
use thaum.Prelude.{ℕ, not, ◌&&◌, ◌||◌, Option, none, some, List, [], ◌∷◌, ◌==◌, if◌then◌else◌}
use thaum.Text.{Text, codes, text_eq, truthy, strip, strip_opt, has_char}
use thaum.Dict.{Dict, set}

-- How `platform_ids_format` says that the attribute is encoded, with the delimiter.
pub data PlatformIdsMode : Type 0 where
  json delimited : PlatformIdsMode

after_prefix : Text → Text → Option Text
after_prefix [] s = some s
after_prefix (c ∷ p) [] = none
after_prefix (c ∷ p) (d ∷ s) = let rest = after_prefix p s in if d == c then rest else none

-- The optional group of the pattern: a delimiter in parentheses.
delimiter_of : Text → Option ℕ
delimiter_of [] = some b':'
delimiter_of (l ∷ d ∷ r ∷ []) =
    if l == b'(' && r == b')' && (d == b':' || d == b'/' || d == b',') then some d else none
delimiter_of (c ∷ s) = none

with_delimiter : Option ℕ → Option (PlatformIdsMode × ℕ)
with_delimiter none = none
with_delimiter (some d) = some (delimited, d)

after_word : Option Text → Option (PlatformIdsMode × ℕ)
unfolding delimiter_of with_delimiter
after_word none = none
after_word (some rest) = with_delimiter (delimiter_of rest)

-- `none` is a ValueError.
unfoldable pub parse_platform_ids_format : Text → Option (PlatformIdsMode × ℕ)
unfolding strip text_eq after_prefix after_word
parse_platform_ids_format s =
    let t = strip s in
    if text_eq t (codes "json")
    then some (json, b':')
    else after_word (after_prefix (codes "multi-value-attr-delimited") t)

-- `dict.update`.
unfoldable pub merge_platform_ids_from_ldap : Dict Text → Dict Text → Dict Text
unfolding set
merge_platform_ids_from_ldap base [] = base
merge_platform_ids_from_ldap base ((k, v) ∷ extra) =
    merge_platform_ids_from_ldap (set k v base) extra

-- The `value` of an attribute: None, one value, or a list with what `str` prints for it.
pub data Value : Type 0 where
  nothing : Value
  single : Text → Value
  several : (shown : Text) → List (Option Text) → Value

pub record Attribute : Type 0 where
  pub values : Option (List (Option Text))
  pub value : Value

-- An entry of the directory: its DN, and an attribute where it has one.
pub record Entry : Type 0 where
  pub entry_dn : Text
  pub attribute : Text → Option Attribute

-- The values that are not blank.
unfoldable pub nonblank : List (Option Text) → List Text
unfolding strip
nonblank [] = []
nonblank (none ∷ raw) = nonblank raw
nonblank (some x ∷ raw) = let rest = nonblank raw in if truthy (strip x) then x ∷ rest else rest

values_of_value : Value → List Text
unfolding nonblank strip
values_of_value nothing = []
values_of_value (several shown xs) = nonblank xs
values_of_value (single v) = let s = strip v in if truthy s then s ∷ [] else []

values_of : Option Attribute → List Text
unfolding nonblank values_of_value
values_of none = []
values_of (some a) = elim a.values [ none ↦ values_of_value a.value | some raw ↦ nonblank raw ]

unfoldable pub iter_ldap_attribute_string_values : Entry → Text → List Text
unfolding values_of
iter_ldap_attribute_string_values entry attr_name = values_of (entry.attribute attr_name)

-- What `json.loads` gives: an error, an object with its values as `str` prints them (`none` for
-- null), or another value.
pub data Loaded : Type 0 where
  invalid other : Loaded
  object : Dict (Option Text) → Loaded

unfoldable pub ids_of_object : Dict (Option Text) → Dict Text → Dict Text
unfolding strip strip_opt set
ids_of_object [] out = out
ids_of_object ((k, v) ∷ pairs) out =
    let ks = strip k in
    let vs = strip_opt v in
    ids_of_object pairs (if truthy ks && truthy vs then set ks vs out else out)

ids_of_loaded : Loaded → Dict Text
unfolding ids_of_object
ids_of_loaded (object pairs) = ids_of_object pairs []
ids_of_loaded invalid = []
ids_of_loaded other = []

-- `line.partition(delimiter)` where the delimiter is in the line: what stands before and after.
unfoldable pub partition : ℕ → Text → Text × Text
partition d [] = ([], [])
partition d (c ∷ s) =
    let (before, after) = partition d s in if c == d then ([], s) else (c ∷ before, after)

id_of_line : ℕ → Text → Dict Text → Dict Text
unfolding partition strip set
id_of_line d line out =
    let (before, after) = partition d line in
    let plugin = strip before in
    let pid = strip after in if truthy plugin && truthy pid then set plugin pid out else out

-- The loop over the values in delimited mode.
unfoldable pub ids_of_lines : ℕ → List Text → Dict Text → Dict Text
unfolding id_of_line strip has_char
ids_of_lines d [] out = out
ids_of_lines d (value ∷ values) out =
    let line = strip value in
    ids_of_lines d values (if truthy line && has_char d line then id_of_line d line out else out)

ids_of_values : (Text → Loaded) → PlatformIdsMode → ℕ → List Text → Dict Text
unfolding ids_of_loaded ids_of_lines
ids_of_values loads mode d [] = []
ids_of_values loads json d (raw ∷ values) = ids_of_loaded (loads raw)
ids_of_values loads delimited d (value ∷ values) = ids_of_lines d (value ∷ values) []

-- The values are not blank, so the first is the one that is read as JSON.
unfoldable pub parse_platform_ids_from_ldap_entry :
    (Text → Loaded) → Entry → Text → PlatformIdsMode → ℕ → Dict Text
unfolding ids_of_values iter_ldap_attribute_string_values strip
parse_platform_ids_from_ldap_entry loads entry attr_name mode d =
    if truthy (strip attr_name)
    then ids_of_values loads mode d (iter_ldap_attribute_string_values entry attr_name)
    else []
