-- ===== src/Ldap/Groups.antt =====
-- lookup/plugins/ldap_ad.py: the members of a group in the directory.
pub mod Outage
use thaum.Prelude.{Bool, ◌&&◌, Option, none, some, List, [], ◌∷◌, ◌++◌, if◌then◌else◌}
use thaum.Text.{Text, codes, truthy, or_else}
use thaum.Identity.{ThaumPerson, ThaumTeam}
use thaum.Ldap.PlatformIds.{merge_platform_ids_from_ldap, Attribute, Entry}
use thaum.Ldap.People.{
  GroupLookupIdMode, dn, name, LdapConfig, Directory, ldap_ad, equals_filter,
  add_platform_ids_ldap_attribute, platform_ids_extra_from_entry, get_attr, email_of_entry,
}

-- The first entry of a search, `some none` where there is none; `none` is an exception.
unfoldable pub first_entry : Option (Bool × List Entry) → Option (Option Entry)
first_entry none = none
first_entry (some (ok, [])) = some none
first_entry (some (ok, entry ∷ entries)) = some (if ok then some entry else none)

unfoldable pub lookup_id_of : LdapConfig → ThaumTeam → Text
lookup_id_of cfg team =
    or_else (elim team.lookup_id [ none ↦ [] | some id ↦ id ])
      (elim cfg.group_lookup_id_mode [ dn ↦ [] | name ↦ team.team_name ])

-- `if v` on the values.
present_texts : List (Option Text) → List Text
present_texts [] = []
present_texts (none ∷ raw) = present_texts raw
present_texts (some v ∷ raw) = let rest = present_texts raw in if truthy v then v ∷ rest else rest

-- An attribute that is missing or has no values raises, which leaves an empty team.
members_of_values : Option Attribute → List Text
unfolding present_texts
members_of_values none = []
members_of_values (some a) = elim a.values [ none ↦ [] | some raw ↦ present_texts raw ]

unfoldable pub member_dns : LdapConfig → Entry → List Text
unfolding members_of_values
member_dns cfg group_entry = members_of_values (group_entry.attribute cfg.group_member_attribute)

-- A member without an email is skipped.
unfoldable pub member_fragment : LdapConfig → Directory → Text → Entry → List ThaumPerson
unfolding email_of_entry get_attr merge_platform_ids_from_ldap platform_ids_extra_from_entry
member_fragment cfg dir mdn entry =
    if truthy (email_of_entry cfg entry)
    then record {
      email = email_of_entry cfg entry;
      display_name = some (get_attr entry cfg.display_name_attribute);
      platform_ids =
          merge_platform_ids_from_ldap ((ldap_ad, mdn) ∷ [])
            (platform_ids_extra_from_entry cfg dir entry);
      source_plugin = ldap_ad;
    }
      ∷ []
    else []

unfoldable pub fragment_of : LdapConfig → Directory → Text → Option Entry → List ThaumPerson
unfolding member_fragment
fragment_of cfg dir mdn none = []
fragment_of cfg dir mdn (some entry) = member_fragment cfg dir mdn entry

prepend_all : List ThaumPerson → Option (List ThaumPerson) → Option (List ThaumPerson)
prepend_all here none = none
prepend_all here (some rest) = some (here ++ rest)

-- One round of the loop, before the rounds that `rest` gives.
with_member :
    LdapConfig
    → Directory
    → Text
    → Option (Option Entry)
    → Option (List ThaumPerson)
    → Option (List ThaumPerson)
unfolding fragment_of prepend_all
with_member cfg dir mdn none rest = none
with_member cfg dir mdn (some entry) rest = prepend_all (fragment_of cfg dir mdn entry) rest

-- The loop over the members, one search for each; `none` where one of them raises.
unfoldable pub resolve_members : LdapConfig → Directory → List Text → Option (List ThaumPerson)
unfolding with_member first_entry add_platform_ids_ldap_attribute
resolve_members cfg dir [] = some []
resolve_members cfg dir (mdn ∷ dns) =
    let rest = resolve_members cfg dir dns in
    with_member cfg dir mdn
      (first_entry (
        dir.search mdn (codes "(objectClass=*)") (
          add_platform_ids_ldap_attribute cfg
            (cfg.email_attribute ∷ cfg.display_name_attribute ∷ cfg.fallback_email_attributes))))
      rest

members_of_entry : LdapConfig → Directory → Option (Option Entry) → Option (List ThaumPerson)
unfolding resolve_members member_dns
members_of_entry cfg dir none = none
members_of_entry cfg dir (some none) = some []
members_of_entry cfg dir (some (some group_entry)) =
    resolve_members cfg dir (member_dns cfg group_entry)

members_of_group : LdapConfig → Directory → Text → Option (List ThaumPerson)
unfolding members_of_entry first_entry
members_of_group cfg dir group_dn =
    if truthy group_dn
    then members_of_entry cfg dir (
        first_entry
          (dir.search group_dn (codes "(objectClass=*)") (cfg.group_member_attribute ∷ [])))
    else some []

members_of_found : LdapConfig → Directory → Option (Option Entry) → Option (List ThaumPerson)
unfolding members_of_group
members_of_found cfg dir none = none
members_of_found cfg dir (some none) = some []
members_of_found cfg dir (some (some entry)) = members_of_group cfg dir entry.entry_dn

-- The base of the search for a group by its name.
group_base : LdapConfig → Text
group_base cfg =
    or_else (elim cfg.group_search_base_dn [ none ↦ [] | some base ↦ base ]) cfg.base_dn

members_by_mode : LdapConfig → Directory → Text → GroupLookupIdMode → Option (List ThaumPerson)
unfolding members_of_group members_of_found first_entry group_base
members_by_mode cfg dir lookup_id dn = members_of_group cfg dir lookup_id
members_by_mode cfg dir lookup_id name = members_of_found cfg dir (
    first_entry (
      dir.search (group_base cfg)
        (equals_filter cfg.group_name_attribute (dir.escape_filter_chars lookup_id))
        (cfg.group_id_attribute ∷ cfg.group_member_attribute ∷ [])))

-- An exception is logged, and gives no members.
or_empty : Option (List ThaumPerson) → List ThaumPerson
or_empty none = []
or_empty (some fragments) = fragments

unfoldable pub fetch_team_members : LdapConfig → Directory → ThaumTeam → List ThaumPerson
unfolding lookup_id_of members_by_mode or_empty
fetch_team_members cfg dir team =
    if truthy (lookup_id_of cfg team) && dir.connects
    then or_empty (members_by_mode cfg dir (lookup_id_of cfg team) cfg.group_lookup_id_mode)
    else []
