-- ===== src/Ldap/People/Known.antt =====
-- lookup/plugins/ldap_ad.py, the lookups of a person: what they return is what the cache holds.
use thaum.Prelude.{
  ℕ, ◌≡◌, refl, sym, ap, ◌∙◌, ◌⊎◌, inl, inr, Bool, true, false, Option, none, some, List, [], ◌∷◌,
  ◌++◌, arith, if◌then◌else◌, Bool-cases, All, none-some, if-elim,
}
use thaum.Text.{Text, codes, text_eq, text_eq_refl, truthy, or_else, strip, strip_opt}
use thaum.Identity.{ThaumPerson}
use thaum.Lookup.Cache.{PlatformIdRow, Cache, of_platform_id}
use thaum.Lookup.People.{
  person_by_email, merge_person, by_row, get_person_by_email as cached_by_email,
  get_person_by_id as cached_by_id,
}
use thaum.Lookup.People.Merging.{merge_person-person}
use thaum.Lookup.People.Reading.{person_by_email-email}
use thaum.Ldap.PlatformIds.{merge_platform_ids_from_ldap, Entry}
use thaum.Ldap.People.{
  LdapConfig, Directory, ldap_ad, person_id_attr_name, build_person_filter,
  build_email_search_filter, add_platform_ids_ldap_attribute, person_attributes,
  platform_ids_extra_from_entry, get_attr, email_of_entry, person_fragment_from_ldap_entry,
  merge_fragment, merge_entry, merge_answer, search_and_merge, email_or_search, get_person_by_email,
  is_supported, id_or_search, get_person_by_id,
}
use thaum.Table.{find_row}
use thaum.Dict.{Dict, set}
use thaum.Lookup.People.Ids.{has_pair, get_person_by_id-merge_person}

-- Nobody was found and the cache is as it was, or the person is the one that the cache holds.
abbrev pub IsSettled : Cache → Option ThaumPerson × Cache → Type 0
IsSettled c (found, c') =
    ((found ≡ none) × (c' ≡ c))
    ⊎ ((p : ThaumPerson) × (found ≡ some p) × (person_by_email ldap_ad p.email c' ≡ some p))

held :
    (email : Text) (p : ThaumPerson) (c : Cache)
    → person_by_email ldap_ad email c ≡ some p
    → person_by_email ldap_ad p.email c ≡ some p
held email p c e =
    ap (λ m. person_by_email ldap_ad m c) (person_by_email-email ldap_ad email c p e) ∙ e

merge_fragment-IsSettled :
    (now : ℕ) (c : Cache) (fragment : Option ThaumPerson)
    → IsSettled c (merge_fragment now c fragment)
unfolding merge_fragment
merge_fragment-IsSettled now c none = inl (refl, refl)
merge_fragment-IsSettled now c (some fragment) =
    let (p, found, mail) = merge_person-person ldap_ad now fragment c in
    inr (p, found, held fragment.email p (merge_person now fragment c) found)

module _ (cfg : LdapConfig) (dir : Directory) (now : ℕ) where
  merge_entry-IsSettled :
      (bot_plugin_name : Text) (c : Cache) (entries : List Entry)
      → IsSettled c (merge_entry cfg dir now bot_plugin_name c entries)
  unfolding merge_entry
  merge_entry-IsSettled bot_plugin_name c [] = inl (refl, refl)
  merge_entry-IsSettled bot_plugin_name c (entry ∷ entries) =
      merge_fragment-IsSettled now c (person_fragment_from_ldap_entry cfg dir entry bot_plugin_name)

  merge_answer-IsSettled :
      (bot_plugin_name : Text) (c : Cache) (answer : Option (Bool × List Entry))
      → IsSettled c (merge_answer cfg dir now bot_plugin_name c answer)
  unfolding merge_answer
  merge_answer-IsSettled bot_plugin_name c none = inl (refl, refl)
  merge_answer-IsSettled bot_plugin_name c (some (ok, entries)) =
      merge_entry-IsSettled bot_plugin_name c (if ok then entries else [])

  search_and_merge-IsSettled :
      (bot_plugin_name filter : Text) (c : Cache)
      → IsSettled c (search_and_merge cfg dir now bot_plugin_name filter c)
  unfolding search_and_merge
  search_and_merge-IsSettled bot_plugin_name filter c = elim (Bool-cases dir.connects) [
    | inl there ↦ rw there (
        merge_answer-IsSettled bot_plugin_name c (
          dir.search cfg.base_dn filter
            (add_platform_ids_ldap_attribute cfg (person_attributes cfg))))
    | inr closed ↦ rw closed (inl (refl, refl))
  ]

  email_or_search-IsSettled :
      (key : Text) (c : Cache) (o : Option ThaumPerson)
      → ((p : ThaumPerson) → o ≡ some p → person_by_email ldap_ad p.email c ≡ some p)
      → IsSettled c (email_or_search cfg dir now key c o)
  unfolding email_or_search
  email_or_search-IsSettled key c none h =
      search_and_merge-IsSettled ldap_ad (build_email_search_filter cfg dir key) c
  email_or_search-IsSettled key c (some p) h = inr (p, refl, h p refl)

  id_or_search-IsSettled :
      (bot_plugin_name person_id : Text) (c : Cache) (o : Option ThaumPerson)
      → ((p : ThaumPerson) → o ≡ some p → person_by_email ldap_ad p.email c ≡ some p)
      → IsSettled c (id_or_search cfg dir now bot_plugin_name person_id c o)
  unfolding id_or_search
  id_or_search-IsSettled bot_plugin_name person_id c (some p) h = inr (p, refl, h p refl)
  id_or_search-IsSettled bot_plugin_name person_id c none h =
      elim (Bool-cases (is_supported bot_plugin_name cfg.supported_bot_plugin_names)) [
        | inl there ↦
            rw there
              (search_and_merge-IsSettled bot_plugin_name (build_person_filter cfg dir person_id) c)
        | inr away ↦ rw away (inl (refl, refl))
      ]

by_row-held :
    (c : Cache) (row : Option PlatformIdRow) (p : ThaumPerson)
    → by_row ldap_ad c row ≡ some p
    → person_by_email ldap_ad p.email c ≡ some p
unfolding by_row
by_row-held c none p e = absurd (none-some p e)
by_row-held c (some r) p e = elim (Bool-cases (truthy r.email)) [
  | inl there ↦ held r.email p c (rw there at e)
  | inr empty ↦ absurd (none-some p (rw empty at e))
]

cached-held :
    (key : Text) (c : Cache) (p : ThaumPerson)
    → cached_by_email ldap_ad (some key) c ≡ some p
    → person_by_email ldap_ad p.email c ≡ some p
unfolding cached_by_email strip_opt
cached-held key c p e = elim (Bool-cases (truthy (strip key))) [
  | inl there ↦ held (strip key) p c (rw there at e)
  | inr empty ↦ absurd (none-some p (rw empty at e))
]

-- A lookup by email or by id never fails, whatever the directory does: either it finds nobody and
-- leaves the cache as it was, or it returns the person that the cache then holds under that
-- person's email.
pub lookups-IsSettled :
    (cfg : LdapConfig) (dir : Directory) (now : ℕ) (email : Option Text)
    (bot_plugin_name person_id : Text) (c : Cache)
    → IsSettled c (get_person_by_email cfg dir now email c)
      × IsSettled c (get_person_by_id cfg dir now bot_plugin_name person_id c)
unfolding get_person_by_email get_person_by_id
lookups-IsSettled cfg dir now email bot_plugin_name person_id c =
    let key = strip_opt email in
    (
      if-elim (IsSettled c) (truthy key)
          (email_or_search cfg dir now key c (cached_by_email ldap_ad (some key) c)) (none, c)
          (λ _.
            email_or_search-IsSettled cfg dir now key c (cached_by_email ldap_ad (some key) c)
              (cached-held key c))
          (λ _. inl (refl, refl)),
      id_or_search-IsSettled cfg dir now bot_plugin_name person_id c
          (cached_by_id ldap_ad bot_plugin_name person_id c)
          (λ p e.
            by_row-held c (find_row (of_platform_id bot_plugin_name person_id) c.platform_ids) p
              (unfold cached_by_id in e)),
    )

merge_platform_ids-has_pair :
    (k v : Text) (base extra : Dict Text)
    → All (λ (e : Text × Text). text_eq k e.0 ≡ false) extra
    → has_pair k v (merge_platform_ids_from_ldap ((k, v) ∷ base) extra) ≡ true
unfolding merge_platform_ids_from_ldap set
merge_platform_ids-has_pair k v base [] a = rw (text_eq_refl k, text_eq_refl v) refl
merge_platform_ids-has_pair k v base ((j, w) ∷ extra) (e, a) =
    rw e (merge_platform_ids-has_pair k v (set j w base) extra a)

abbrev person_of_entry : LdapConfig → Directory → Entry → Text → Text → ThaumPerson
person_of_entry cfg dir entry bot_plugin_name person_id = record {
  email =
      or_else (email_of_entry cfg entry)
        (person_id ++ codes "@" ++ bot_plugin_name ++ codes ".unresolved");
  display_name = some (get_attr entry cfg.display_name_attribute);
  platform_ids =
      merge_platform_ids_from_ldap ((bot_plugin_name, person_id) ∷ [])
        (platform_ids_extra_from_entry cfg dir entry);
  source_plugin = ldap_ad;
}

or_else-truthy : (s t : Text) → truthy t ≡ true → truthy (or_else s t) ≡ true
or_else-truthy [] t h = h
or_else-truthy (c ∷ s) t h = refl

append-truthy : (s t : Text) → truthy s ≡ true → truthy (s ++ t) ≡ true
append-truthy [] t h = ground arith
append-truthy (c ∷ s) t h = refl

-- A person whose id was not known and whom the directory finds under exactly that id is merged and
-- returned; afterwards the same id gives the same person from the cache, with any directory, also one
-- that is out of reach. The entry may hold platform ids of other plugins, but none of this one.
pub get_person_by_id_again :
    (cfg : LdapConfig) (dir dir' : Directory) (now later : ℕ) (bot_plugin_name person_id : Text)
    (c : Cache) (entry : Entry) (entries : List Entry)
    → find_row (of_platform_id bot_plugin_name person_id) c.platform_ids ≡ none
    → is_supported bot_plugin_name cfg.supported_bot_plugin_names ≡ true
    → dir.connects ≡ true
    → dir.search cfg.base_dn
        (build_person_filter cfg dir person_id)
        (add_platform_ids_ldap_attribute cfg (person_attributes cfg))
      ≡ some (true, entry ∷ entries)
    → strip (get_attr entry (person_id_attr_name cfg)) ≡ person_id
    → truthy person_id ≡ true
    → All
        (λ (e : Text × Text). text_eq bot_plugin_name e.0 ≡ false)
        (platform_ids_extra_from_entry cfg dir entry)
    → (p : ThaumPerson) × ((get_person_by_id cfg dir now bot_plugin_name person_id c).0 ≡ some p)
      × (get_person_by_id cfg dir' later bot_plugin_name person_id
            (get_person_by_id cfg dir now bot_plugin_name person_id c).1
          ≡ (some p, (get_person_by_id cfg dir now bot_plugin_name person_id c).1))
unfolding get_person_by_id id_or_search search_and_merge merge_answer merge_entry merge_fragment
get_person_by_id_again cfg dir dir' now later bot_plugin_name person_id c entry entries free
      supported up answers same named extra =
    let fragment = person_of_entry cfg dir entry bot_plugin_name person_id in
    let c' = merge_person now fragment c in
    let (p, kept, by_mail, mail) =
      get_person_by_id-merge_person ldap_ad now fragment c bot_plugin_name person_id
        (or_else-truthy (email_of_entry cfg entry)
          (person_id ++ codes "@" ++ bot_plugin_name ++ codes ".unresolved")
          (append-truthy (person_id ++ codes "@" ++ bot_plugin_name) (codes ".unresolved") (
            append-truthy (person_id ++ codes "@") bot_plugin_name
              (append-truthy person_id (codes "@") named))))
        (merge_platform_ids-has_pair bot_plugin_name person_id []
          (platform_ids_extra_from_entry cfg dir entry) extra)
        free in
    let read : person_fragment_from_ldap_entry cfg dir entry bot_plugin_name ≡ some fragment =
      unfold person_fragment_from_ldap_entry in rw (same, named) refl in
    let first : get_person_by_id cfg dir now bot_plugin_name person_id c ≡ (some p, c') =
      ap (id_or_search cfg dir now bot_plugin_name person_id c)
        (unfold cached_by_id in ap (by_row ldap_ad c) free)
      ∙ rw (supported, up, answers) (rw read (ap (λ o. (o, c')) by_mail)) in
    (
      p,
      ap (λ (r : Option ThaumPerson × Cache). r.0) first,
      ap
            (λ (r : Option ThaumPerson × Cache).
              get_person_by_id cfg dir' later bot_plugin_name person_id r.1)
            first
          ∙ ap (id_or_search cfg dir' later bot_plugin_name person_id c') kept
          ∙ ap (λ (r : Option ThaumPerson × Cache). (some p, r.1)) (sym first),
    )
