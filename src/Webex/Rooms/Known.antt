-- ===== src/Webex/Rooms/Known.antt =====
-- bots/plugins/webex_bot.py, get_person over lookup/base.py: a person who was seen is known.
use thaum.Prelude.{ℕ, ◌≡◌, refl, sym, ap, ◌∙◌, true, Option, none, some, [], ◌∷◌}
use thaum.Text.{Text, text_eq_refl, truthy, or_else}
use thaum.Webex.Rooms.{
  webex, ApiPerson, fallback_email, first_email, person_from_api, merged_person, known_or_merged,
  get_person,
}
use thaum.Table.{find_row}
use thaum.Identity.{ThaumPerson}
use thaum.Lookup.Cache.{Cache, of_platform_id}
use thaum.Lookup.People.{by_row, get_person_by_id, merge_person}
use thaum.Lookup.People.Ids.{has_pair, get_person_by_id-merge_person}

fallback-truthy : (id : Text) → truthy (fallback_email id) ≡ true
fallback-truthy [] = refl
fallback-truthy (c ∷ id) = refl

email-truthy :
    (id : Text) (answer : Option ApiPerson) → truthy (person_from_api id answer).email ≡ true
unfolding person_from_api
email-truthy id none = fallback-truthy id
email-truthy id (some a) = mail (first_email a.emails)
  where
    mail : (email : Text) → truthy (or_else email (fallback_email id)) ≡ true
    mail [] = fallback-truthy id
    mail (c ∷ email) = refl

has_pair_self :
    (id : Text) (answer : Option ApiPerson)
    → has_pair webex id (person_from_api id answer).platform_ids ≡ true
unfolding person_from_api
has_pair_self id none = rw (text_eq_refl webex, text_eq_refl id) refl
has_pair_self id (some a) = rw (text_eq_refl webex, text_eq_refl id) refl

person_by_id-free :
    (plugin id : Text) (c : Cache)
    → find_row (of_platform_id webex id) c.platform_ids ≡ none
    → get_person_by_id plugin webex id c ≡ none
unfolding get_person_by_id
person_by_id-free plugin id c free = ap (by_row plugin c) free

-- A person whose id at Webex the cache does not know is fetched, merged and returned, also where the
-- API raises; afterwards the same id gives the same person from the cache, whatever the API would
-- answer then, and nothing changes.
pub get_person_again :
    (plugin id : Text) (now later : ℕ) (answer answer' : Option ApiPerson) (c : Cache)
    → find_row (of_platform_id webex id) c.platform_ids ≡ none
    → (p : ThaumPerson) × ((get_person plugin now id answer c).0 ≡ some p)
      × (p.email ≡ (person_from_api id answer).email)
      × (get_person plugin later id answer' (get_person plugin now id answer c).1
          ≡ (some p, (get_person plugin now id answer c).1))
unfolding get_person known_or_merged merged_person
get_person_again plugin id now later answer answer' c free =
    let fragment = person_from_api id answer in
    let (p, kept, by_mail, mail) =
      get_person_by_id-merge_person plugin now fragment c webex id (email-truthy id answer)
        (has_pair_self id answer) free in
    let c' = merge_person now fragment c in
    let unknown : get_person_by_id plugin webex id c ≡ none = person_by_id-free plugin id c free in
    let first : get_person plugin now id answer c ≡ (some p, c') =
      ap (known_or_merged plugin now id answer c) unknown ∙ ap (λ o. (o, c')) by_mail in
    (
      p,
      ap (λ (r : Option ThaumPerson × Cache). r.0) first,
      mail,
      ap (λ (r : Option ThaumPerson × Cache). get_person plugin later id answer' r.1) first
          ∙ ap (known_or_merged plugin later id answer' c') kept
          ∙ ap (λ (r : Option ThaumPerson × Cache). (some p, r.1)) (sym first),
    )
