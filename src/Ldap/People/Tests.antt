-- ===== src/Ldap/People/Tests.antt =====
-- Tests of the lookup in LDAP, with a directory of one person.
use thaum.Prelude.{
  ℕ, ◌-◌, ◌≡◌, refl, inl, true, false, Option, none, some, [], ◌∷◌, ltb, if◌then◌else◌, All,
}
use thaum.Text.{Text, codes, text_eq, is_space, lstrip, rstrip, strip, strip_opt, has_char}
use thaum.Table.{find_row}
use thaum.Dict.{set}
use thaum.Identity.{ThaumPerson, person_of_email, ThaumTeam, is_fresh, fetched}
use thaum.Lookup.Cache.{Cache, empty_cache, of_platform_id}
use thaum.Lookup.Teams.{get_team_by_name, lookup_team_members}
use thaum.Ldap.PlatformIds.{
  delimited, nothing, single, Attribute, Entry, nonblank, iter_ldap_attribute_string_values,
  invalid, partition, ids_of_lines, parse_platform_ids_from_ldap_entry,
}
use thaum.Ldap.People.{
  samaccountname, dn, LdapConfig, Directory, ldap_ad, person_id_attr_name, with_extra,
  fallback_filters, build_email_search_filter, platform_ids_extra_from_entry, text_of_value,
  get_attr, get_person_by_email, is_supported, get_person_by_id,
}
use thaum.Ldap.People.Known.{IsSettled, lookups-IsSettled, get_person_by_id_again}
use thaum.Ldap.Groups.{fetch_team_members}
use thaum.Ldap.Groups.Outage.{lookup_team_members-outage}

abbrev cfg : LdapConfig
cfg = record {
  base_dn = codes "dc=x";
  person_id_mode = samaccountname;
  person_id_attribute = none;
  people_search_filter = codes "(o=p)";
  email_attribute = codes "mail";
  fallback_email_attributes = codes "upn" ∷ codes "mail" ∷ [];
  display_name_attribute = codes "cn";
  group_lookup_id_mode = dn;
  group_search_base_dn = none;
  group_id_attribute = codes "dn";
  group_name_attribute = codes "cn";
  group_member_attribute = codes "member";
  platform_ids_ldap_attribute = some (codes "ids");
  platform_ids_mode = delimited;
  platform_ids_delimiter = b':';
  supported_bot_plugin_names = [];
}

attribute_of : Text → Option Attribute
unfolding text_eq
attribute_of attr =
    if text_eq attr (codes "sAMAccountName")
    then some (record { values = none; value = single (codes "jd ") })
    else if text_eq attr (codes "upn")
    then some (record { values = none; value = single (codes "j@x") })
    else if text_eq attr (codes "ids")
    then some (record { values = some (some (codes "jira:5:ab") ∷ []); value = nothing })
    else none

abbrev entry : Entry
entry = record { entry_dn = codes "cn=j"; attribute = attribute_of }

abbrev dir : Directory
dir = record {
  escape_filter_chars = λ s. s;
  loads = λ s. invalid;
  connects = true;
  search = λ base filter attributes. some (true, entry ∷ []);
}

abbrev closed : Directory
closed = record dir { connects = false }

filters : build_email_search_filter cfg dir (codes "a") ≡ codes "(&(|(mail=a)(upn=a))(o=p))"
unfolding build_email_search_filter with_extra fallback_filters strip lstrip rstrip is_space text_eq
filters = refl

free : find_row (of_platform_id (codes "webex") (codes "jd")) empty_cache.platform_ids ≡ none
unfolding find_row
free = refl

id_read : strip (get_attr entry (person_id_attr_name cfg)) ≡ codes "jd"
unfolding strip lstrip rstrip is_space get_attr text_of_value person_id_attr_name attribute_of
    text_eq
id_read = refl

no_other :
    All
      (λ (e : Text × Text). text_eq (codes "webex") e.0 ≡ false)
      (platform_ids_extra_from_entry cfg dir entry)
unfolding platform_ids_extra_from_entry attribute_of text_eq strip_opt strip lstrip rstrip is_space
    set has_char parse_platform_ids_from_ldap_entry iter_ldap_attribute_string_values nonblank
    partition ids_of_lines
no_other = (refl, tt)

get_person_by_id_again_example :
    (p : ThaumPerson) × ((get_person_by_id cfg dir 3 (codes "webex") (codes "jd") empty_cache).0
      ≡ some p)
    × (get_person_by_id cfg closed 8
          (codes "webex")
          (codes "jd")
          (get_person_by_id cfg dir 3 (codes "webex") (codes "jd") empty_cache).1
        ≡ (some p, (get_person_by_id cfg dir 3 (codes "webex") (codes "jd") empty_cache).1))
get_person_by_id_again_example =
    get_person_by_id_again cfg dir closed 3 8 (codes "webex") (codes "jd") empty_cache entry [] free
      supported refl refl id_read refl no_other
  where
    supported : is_supported (codes "webex") [] ≡ true
    supported = unfold is_supported in refl

lookups-IsSettled_example :
    IsSettled empty_cache (get_person_by_email cfg closed 3 (some (codes "j@x")) empty_cache)
    × IsSettled empty_cache (get_person_by_id cfg closed 3 (codes "webex") (codes "jd") empty_cache)
lookups-IsSettled_example =
    lookups-IsSettled cfg closed 3 (some (codes "j@x")) (codes "webex") (codes "jd") empty_cache

abbrev team : ThaumTeam
team = record {
  team_name = codes "dba";
  lookup_id = some (codes "cn=dba");
  alert_id = none;
  members = person_of_email (codes "j@x") ∷ [];
  last_cached = 0;
  ttl = 100;
}

lookup_team_members-outage_example :
    (c' : Cache) × (left : ThaumTeam) × (t : ThaumTeam) × (lookup_team_members ldap_ad true 9 500
        (some (fetch_team_members cfg closed team))
        team
        empty_cache
      ≡ (c', fetched left []))
    × (get_team_by_name ldap_ad (λ s names. none) (codes "dba") c' ≡ some t)
    × (t.members ≡ [])
    × ((later : ℕ) → is_fresh later t ≡ ltb (later - 500) 100)
lookup_team_members-outage_example =
    lookup_team_members-outage cfg closed (λ s names. none) true 9 500 team empty_cache (inl refl)
      refl
