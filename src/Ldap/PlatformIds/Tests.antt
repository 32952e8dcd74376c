-- ===== src/Ldap/PlatformIds/Tests.antt =====
-- Tests of the platform ids of an entry.
use thaum.Prelude.{◌≡◌, refl, true, none, some, [], ◌∷◌}
use thaum.Text.{Text, codes, text_eq, truthy, is_space, lstrip, rstrip, strip, has_char}
use thaum.Dict.{Dict}
use thaum.Ldap.PlatformIds.{
  json, delimited, after_prefix, delimiter_of, with_delimiter, after_word,
  parse_platform_ids_format, nothing, Entry, invalid, parse_platform_ids_from_ldap_entry,
}
use thaum.Ldap.PlatformIds.Lines.{values_for, IsIds, parse_platform_ids-values_for}

formats :
    (parse_platform_ids_format (codes " json ") ≡ some (json, b':'))
    × (parse_platform_ids_format (codes "multi-value-attr-delimited") ≡ some (delimited, b':'))
    × (parse_platform_ids_format (codes "multi-value-attr-delimited(/)") ≡ some (delimited, b'/'))
    × (parse_platform_ids_format (codes "multi-value-attr-delimited(;)") ≡ none)
unfolding parse_platform_ids_format after_word after_prefix with_delimiter delimiter_of strip lstrip
    rstrip is_space text_eq
formats = (refl, refl, refl, refl)

abbrev ids : Dict Text
ids = (codes "jira", codes "5:ab") ∷ (codes "webex", codes "W1") ∷ []

ids-IsIds : IsIds b':' ids
unfolding strip lstrip rstrip is_space has_char text_eq
ids-IsIds =
    ((refl, refl), (refl, refl), refl, (refl, tt), ((refl, refl), (refl, refl), refl, tt, tt))

abbrev entry : Entry
entry = record {
  entry_dn = codes "cn=j";
  attribute = λ attr. some (record { values = some (values_for b':' ids); value = nothing });
}

-- An id may hold the delimiter.
parse_platform_ids-values_for_example :
    parse_platform_ids_from_ldap_entry (λ raw. invalid) entry (codes "ids") delimited b':' ≡ ids
parse_platform_ids-values_for_example =
    parse_platform_ids-values_for (λ raw. invalid) entry (codes "ids") nothing b':' ids named refl
      ids-IsIds
  where
    named : truthy (strip (codes "ids")) ≡ true
    named = unfold strip lstrip rstrip is_space in refl
