-- ===== src/Ldap/People.antt =====
-- lookup/plugins/ldap_ad.py: people from the directory, over the identity cache.
--
-- `none` as the answer of a search is an exception, which the code logs.
pub mod Known
mod Tests
use thaum.Prelude.{
  ℕ, Bool, true, not, ◌&&◌, Option, none, some, List, [], ◌∷◌, ◌++◌, if◌then◌else◌, all,
}
use thaum.Text.{Text, codes, text_eq, truthy, or_else, strip, strip_opt, one_of}
use thaum.Dict.{Dict, set}
use thaum.Identity.{ThaumPerson}
use thaum.Lookup.Cache.{Cache}
use thaum.Lookup.People.{
  person_by_email, merge_person, get_person_by_email as cached_by_email,
  get_person_by_id as cached_by_id,
}
use thaum.Ldap.PlatformIds.{
  PlatformIdsMode, merge_platform_ids_from_ldap, Value, nothing, single, several, Entry, Loaded,
  parse_platform_ids_from_ldap_entry,
}

pub data PersonIdMode : Type 0 where
  samaccountname uid attribute_mode : PersonIdMode

pub data GroupLookupIdMode : Type 0 where
  dn name : GroupLookupIdMode

pub record LdapConfig : Type 0 where
  pub base_dn : Text
  pub person_id_mode : PersonIdMode
  pub person_id_attribute : Option Text
  pub people_search_filter : Text
  pub email_attribute : Text
  pub fallback_email_attributes : List Text
  pub display_name_attribute : Text
  pub group_lookup_id_mode : GroupLookupIdMode
  pub group_search_base_dn : Option Text
  pub group_id_attribute : Text
  pub group_name_attribute : Text
  pub group_member_attribute : Text
  pub platform_ids_ldap_attribute : Option Text
  pub platform_ids_mode : PlatformIdsMode
  pub platform_ids_delimiter : ℕ
  pub supported_bot_plugin_names : List Text

-- The library and the server: `escape_filter_chars`, `json.loads`, whether a connection is made, and
-- what a search of a base with a filter for some attributes gives: whether it succeeds, with the entries.
pub record Directory : Type 0 where
  pub escape_filter_chars : Text → Text
  pub loads : Text → Loaded
  pub connects : Bool
  pub search : (base filter : Text) → List Text → Option (Bool × List Entry)

abbrev pub ldap_ad : Text
ldap_ad = codes "ldap_ad"

unfoldable pub person_id_attr_name : LdapConfig → Text
person_id_attr_name cfg = elim cfg.person_id_mode [
  | samaccountname ↦ codes "sAMAccountName"
  | uid ↦ codes "uid"
  | attribute_mode ↦ elim cfg.person_id_attribute [
    | none ↦ codes "sAMAccountName"
    | some attr ↦ or_else attr (codes "sAMAccountName")
  ]
]

-- `(attr=value)`.
abbrev pub equals_filter : Text → Text → Text
equals_filter attr value = codes "(" ++ attr ++ codes "=" ++ value ++ codes ")"

with_extra : LdapConfig → Text → Text
unfolding strip
with_extra cfg filter =
    let extra = strip cfg.people_search_filter in
    if truthy extra then codes "(&" ++ filter ++ extra ++ codes ")" else filter

unfoldable pub build_person_filter : LdapConfig → Directory → Text → Text
unfolding with_extra person_id_attr_name
build_person_filter cfg dir person_id =
    with_extra cfg (equals_filter (person_id_attr_name cfg) (dir.escape_filter_chars person_id))

fallback_filters : Text → Text → List Text → Text
unfolding strip text_eq
fallback_filters email_attribute escaped [] = []
fallback_filters email_attribute escaped (a ∷ fallbacks) =
    let rest = fallback_filters email_attribute escaped fallbacks in
    if truthy (strip a) && not (text_eq a email_attribute)
    then equals_filter (strip a) escaped ++ rest
    else rest

unfoldable pub build_email_search_filter : LdapConfig → Directory → Text → Text
unfolding with_extra fallback_filters
build_email_search_filter cfg dir email_key =
    let escaped = dir.escape_filter_chars email_key in
    with_extra cfg (
      codes "(|"
      ++ equals_filter cfg.email_attribute escaped
      ++ fallback_filters cfg.email_attribute escaped cfg.fallback_email_attributes
      ++ codes ")")

unfoldable pub add_platform_ids_ldap_attribute : LdapConfig → List Text → List Text
unfolding strip_opt
add_platform_ids_ldap_attribute cfg attributes =
    let an = strip_opt cfg.platform_ids_ldap_attribute in
    if truthy an then an ∷ attributes else attributes

-- The set of the attributes, as a list.
abbrev pub person_attributes : LdapConfig → List Text
person_attributes cfg =
    cfg.email_attribute
    ∷ cfg.display_name_attribute
    ∷ person_id_attr_name cfg
    ∷ cfg.fallback_email_attributes

unfoldable pub platform_ids_extra_from_entry : LdapConfig → Directory → Entry → Dict Text
unfolding strip_opt parse_platform_ids_from_ldap_entry
platform_ids_extra_from_entry cfg dir entry =
    let an = strip_opt cfg.platform_ids_ldap_attribute in
    if truthy an
    then parse_platform_ids_from_ldap_entry dir.loads entry an cfg.platform_ids_mode
        cfg.platform_ids_delimiter
    else []

text_of_value : Value → Text
text_of_value nothing = []
text_of_value (single v) = v
text_of_value (several shown xs) = shown

-- `_get_attr`.
unfoldable pub get_attr : Entry → Text → Text
unfolding text_of_value
get_attr entry attr = elim (entry.attribute attr) [ none ↦ [] | some a ↦ text_of_value a.value ]

unfoldable pub first_attr : Entry → List Text → Text
unfolding get_attr
first_attr entry [] = []
first_attr entry (a ∷ attrs) = or_else (get_attr entry a) (first_attr entry attrs)

unfoldable pub email_of_entry : LdapConfig → Entry → Text
unfolding get_attr first_attr
email_of_entry cfg entry =
    or_else (get_attr entry cfg.email_attribute) (first_attr entry cfg.fallback_email_attributes)

unfoldable pub person_fragment_from_ldap_entry :
    LdapConfig → Directory → Entry → Text → Option ThaumPerson
unfolding email_of_entry get_attr person_id_attr_name strip merge_platform_ids_from_ldap
    platform_ids_extra_from_entry
person_fragment_from_ldap_entry cfg dir entry bot_plugin_name =
    let person_id = strip (get_attr entry (person_id_attr_name cfg)) in
    if truthy person_id
    then some (record {
      email =
          or_else (email_of_entry cfg entry)
            (person_id ++ codes "@" ++ bot_plugin_name ++ codes ".unresolved");
      display_name = some (get_attr entry cfg.display_name_attribute);
      platform_ids =
          merge_platform_ids_from_ldap ((bot_plugin_name, person_id) ∷ [])
            (platform_ids_extra_from_entry cfg dir entry);
      source_plugin = ldap_ad;
    })
    else none

merge_fragment : ℕ → Cache → Option ThaumPerson → Option ThaumPerson × Cache
unfolding merge_person person_by_email
merge_fragment now c none = (none, c)
merge_fragment now c (some fragment) =
    let c' = merge_person now fragment c in (person_by_email ldap_ad fragment.email c', c')

merge_entry : LdapConfig → Directory → ℕ → Text → Cache → List Entry → Option ThaumPerson × Cache
unfolding merge_fragment person_fragment_from_ldap_entry
merge_entry cfg dir now bot_plugin_name c [] = (none, c)
merge_entry cfg dir now bot_plugin_name c (entry ∷ entries) =
    merge_fragment now c (person_fragment_from_ldap_entry cfg dir entry bot_plugin_name)

merge_answer :
    LdapConfig
    → Directory
    → ℕ
    → Text
    → Cache
    → Option (Bool × List Entry)
    → Option ThaumPerson × Cache
unfolding merge_entry
merge_answer cfg dir now bot_plugin_name c none = (none, c)
merge_answer cfg dir now bot_plugin_name c (some (ok, entries)) =
    merge_entry cfg dir now bot_plugin_name c (if ok then entries else [])

-- A connection, one search and the merge of the first entry.
search_and_merge : LdapConfig → Directory → ℕ → Text → Text → Cache → Option ThaumPerson × Cache
unfolding merge_answer add_platform_ids_ldap_attribute
search_and_merge cfg dir now bot_plugin_name filter c =
    if dir.connects
    then merge_answer cfg dir now bot_plugin_name c (
        dir.search cfg.base_dn filter (add_platform_ids_ldap_attribute cfg (person_attributes cfg)))
    else (none, c)

email_or_search :
    LdapConfig → Directory → ℕ → Text → Cache → Option ThaumPerson → Option ThaumPerson × Cache
unfolding search_and_merge build_email_search_filter
email_or_search cfg dir now key c (some cached) = (some cached, c)
email_or_search cfg dir now key c none =
    search_and_merge cfg dir now ldap_ad (build_email_search_filter cfg dir key) c

unfoldable pub get_person_by_email :
    LdapConfig → Directory → ℕ → Option Text → Cache → Option ThaumPerson × Cache
unfolding strip_opt email_or_search cached_by_email
get_person_by_email cfg dir now email c =
    let key = strip_opt email in
    if truthy key
    then email_or_search cfg dir now key c (cached_by_email ldap_ad (some key) c)
    else (none, c)

-- No names stand for all of them.
unfoldable pub is_supported : Text → List Text → Bool
unfolding one_of
is_supported bot_plugin_name [] = true
is_supported bot_plugin_name (n ∷ names) = one_of bot_plugin_name (n ∷ names)

id_or_search :
    LdapConfig
    → Directory
    → ℕ
    → Text
    → Text
    → Cache
    → Option ThaumPerson
    → Option ThaumPerson × Cache
unfolding search_and_merge build_person_filter is_supported
id_or_search cfg dir now bot_plugin_name person_id c (some cached) = (some cached, c)
id_or_search cfg dir now bot_plugin_name person_id c none =
    if is_supported bot_plugin_name cfg.supported_bot_plugin_names
    then search_and_merge cfg dir now bot_plugin_name (build_person_filter cfg dir person_id) c
    else (none, c)

unfoldable pub get_person_by_id :
    LdapConfig → Directory → ℕ → Text → Text → Cache → Option ThaumPerson × Cache
unfolding id_or_search cached_by_id
get_person_by_id cfg dir now bot_plugin_name person_id c =
    id_or_search cfg dir now bot_plugin_name person_id c
      (cached_by_id ldap_ad bot_plugin_name person_id c)
