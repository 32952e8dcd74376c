-- ===== src/Lookup/People/Reading.antt =====
-- A person that is read from the cache has the email that was asked for.
use thaum.Prelude.{◌≡◌, refl, Option, none, some, List, arith}
use thaum.Text.{Text, text_eq_iff}
use thaum.Table.{find_row}
use thaum.Table.Laws.{find_row_sound}
use thaum.Identity.{ThaumPerson}
use thaum.Lookup.Cache.{PersonRow, Cache, of_email}
use thaum.Lookup.People.{person_of, found_person, person_by_email}

found_person-email :
    (plugin : Text) (c : Cache) (people : List PersonRow) (email : Text) (o : Option PersonRow)
    (p : ThaumPerson)
    → find_row (of_email email) people ≡ o
    → found_person plugin c o ≡ some p
    → p.email ≡ email
found_person-email plugin c people email none p e h = unfold found_person in cc
found_person-email plugin c people email (some row) p e h =
    let mail : row.email ≡ email =
      (text_eq_iff row.email email).0 (find_row_sound (of_email email) people row e) in
    unfold found_person person_of in ground (arith, mail)

pub person_by_email-email :
    (plugin email : Text) (c : Cache) (p : ThaumPerson)
    → person_by_email plugin email c ≡ some p
    → p.email ≡ email
person_by_email-email plugin email c p h =
    found_person-email plugin c c.people email (find_row (of_email email) c.people) p refl
      (unfold person_by_email in h)

found_person-none :
    (plugin : Text) (c : Cache) (o : Option PersonRow) → found_person plugin c o ≡ none → o ≡ none
unfolding found_person
found_person-none plugin c none h = refl
found_person-none plugin c (some row) h = cc

pub person_by_email-none :
    (plugin email : Text) (c : Cache)
    → person_by_email plugin email c ≡ none
    → find_row (of_email email) c.people ≡ none
person_by_email-none plugin email c h = found_person-none plugin c _ (unfold person_by_email in h)
