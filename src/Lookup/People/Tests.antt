-- ===== src/Lookup/People/Tests.antt =====
-- Runs of merging people into the cache.
use thaum.Prelude.{◌≡◌, refl, true, none, some, [], ◌∷◌}
use thaum.Text.{codes, text_eq}
use thaum.Table.{find_row}
use thaum.Identity.{ThaumPerson}
use thaum.Lookup.Cache.{PersonRow, Cache, empty_cache, of_platform_id}
use thaum.Lookup.People.{merge_person}
use thaum.Lookup.People.Ids.{has_pair, owner_row, merge_person-platform_id}
use thaum.Lookup.People.Validity.{IsValid, merge_person-IsValid}

abbrev ann : ThaumPerson
ann = record {
  email = codes "ann@x.org";
  display_name = some (codes "Ann");
  platform_ids = (codes "webex", codes "w1") ∷ [];
  source_plugin = codes "webex";
}

abbrev bob_row : PersonRow
bob_row = record {
  email = codes "bob@x.org";
  display_name = some (codes " ");
  source_plugin = none;
  name_last_updated = 5;
}

abbrev cache : Cache
cache = record empty_cache {
  people = bob_row ∷ [];
  platform_ids =
      record { platform_key = codes "webex"; platform_id = codes "w2"; email = codes "bob@x.org" }
      ∷ [];
}

cache-IsValid : IsValid cache
unfolding find_row text_eq
cache-IsValid = record { emails = (refl, tt); ids = (refl, tt); owners = ((λ h. cc), tt) }

merge_person-platform_id_example :
    find_row (of_platform_id (codes "webex") (codes "w2")) (merge_person 50 ann cache).platform_ids
    ≡ owner_row
        (codes "webex")
        (codes "w2")
        ann.email
        (has_pair (codes "webex") (codes "w2") ann.platform_ids)
        (find_row (of_platform_id (codes "webex") (codes "w2")) cache.platform_ids)
merge_person-platform_id_example =
    merge_person-platform_id 50 ann cache (codes "webex") (codes "w2")

ann_has : has_pair (codes "webex") (codes "w1") ann.platform_ids ≡ true
unfolding text_eq
ann_has = refl

nobody_has : find_row (of_platform_id (codes "webex") (codes "w1")) cache.platform_ids ≡ none
unfolding find_row text_eq
nobody_has = refl

merge_person-IsValid_example : IsValid (merge_person 50 ann cache)
merge_person-IsValid_example = merge_person-IsValid 50 ann cache cache-IsValid
