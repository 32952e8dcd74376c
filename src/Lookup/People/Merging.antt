-- ===== src/Lookup/People/Merging.antt =====
-- Merging a fragment: the row of its email, and the names.
use thaum.Prelude.{
  ℕ, ◌≡◌, refl, ◌∙◌, subst, inl, inr, false, ◌&&◌, Option, none, some, List, arith, if◌then◌else◌,
  Bool-cases,
}
use thaum.Text.{Text, text_eq, text_eq_iff, text_eq_refl}
use thaum.Table.{find_row}
use thaum.Table.Laws.{
  find_row_sound, find_row-add_row, find_row-update_row, find_row-update_row_other,
}
use thaum.Identity.{ThaumPerson}
use thaum.Lookup.Cache.{PersonRow, Cache, of_email}
use thaum.Lookup.People.{
  person_of, person_by_email, name_is_stale, has_name, renamed, merge_row, merge_person,
}

-- The row of an email after a merge: the old one with the name rule applied, or a new one.
abbrev pub merged_row : ℕ → ThaumPerson → Option PersonRow → PersonRow
merged_row now fragment none = record {
  email = fragment.email;
  display_name = fragment.display_name;
  source_plugin = some fragment.source_plugin;
  name_last_updated = now;
}
merged_row now fragment (some row) =
    if name_is_stale now row && has_name fragment
    then record row {
      display_name = fragment.display_name;
      source_plugin = some fragment.source_plugin;
      name_last_updated = now;
    }
    else row

pub renamed-email :
    (now : ℕ) (fragment : ThaumPerson) (row : PersonRow)
    → (renamed now fragment row).email ≡ row.email
renamed-email now fragment row = unfold renamed in ground arith

merge_row-find :
    (now : ℕ) (fragment : ThaumPerson) (o : Option PersonRow) (people : List PersonRow)
    → find_row (of_email fragment.email) people ≡ o
    → find_row (of_email fragment.email) (merge_row now fragment o people)
      ≡ some (merged_row now fragment o)
merge_row-find now fragment none people e =
    unfold merge_row in
    find_row-add_row (of_email fragment.email) _ people ∙ rw (e, text_eq_refl fragment.email)
merge_row-find now fragment (some row) people e =
    unfold merge_row in
    find_row-update_row (of_email fragment.email) (renamed now fragment) people
      (λ r h. rw (renamed-email now fragment r) h)
    ∙ rw e (unfold renamed in refl)

merge_row-find_other :
    (now : ℕ) (fragment : ThaumPerson) (email : Text) (o : Option PersonRow)
    (people : List PersonRow)
    → text_eq fragment.email email ≡ false
    → find_row (of_email email) (merge_row now fragment o people) ≡ find_row (of_email email) people
merge_row-find_other now fragment email none people apart =
    unfold merge_row in find_row-add_row (of_email email) _ people ∙ ground arith
merge_row-find_other now fragment email (some row) people apart =
    unfold merge_row in
    find_row-update_row_other (of_email fragment.email) (of_email email) (renamed now fragment)
      people
      (λ r h.
        let miss : text_eq r.email email ≡ false = ground (
          arith,
          text_eq_iff r.email fragment.email,
          text_eq_iff r.email email,
          text_eq_iff fragment.email email,
        ) in
        (miss, rw (renamed-email now fragment r) miss))

-- A merge decides the row of the fragment's email and no other: a new email gets the fragment's
-- name; a known one takes it if the fragment has a name and the stored one is blank or older than a
-- week, and else stays as it is; the row of any other email is what it was.
pub merge_person-row :
    (now : ℕ) (fragment : ThaumPerson) (c : Cache) (email : Text)
    → find_row (of_email email) (merge_person now fragment c).people ≡ (
        if text_eq fragment.email email
        then some (merged_row now fragment (find_row (of_email email) c.people))
        else find_row (of_email email) c.people)
merge_person-row now fragment c email = elim (Bool-cases (text_eq fragment.email email)) [
  | inl same ↦
      let e : fragment.email ≡ email = (text_eq_iff fragment.email email).0 same in
      rw same (
        unfold merge_person in
        subst
          (λ x.
            find_row (of_email x)
              (merge_row now fragment (find_row (of_email fragment.email) c.people) c.people)
            ≡ some (merged_row now fragment (find_row (of_email x) c.people)))
          e (merge_row-find now fragment _ c.people refl))
  | inr apart ↦
      rw apart (unfold merge_person in merge_row-find_other now fragment email _ c.people apart)
]

-- After a merge the cache has a person for the fragment's email, so the assertion of the source
-- never fails; its email is the fragment's.
pub merge_person-person :
    (plugin : Text) (now : ℕ) (fragment : ThaumPerson) (c : Cache)
    → (p : ThaumPerson) × (person_by_email plugin fragment.email (merge_person now fragment c)
        ≡ some p)
      × (p.email ≡ fragment.email)
unfolding person_of
merge_person-person plugin now fragment c =
    let row = merged_row now fragment (find_row (of_email fragment.email) c.people) in
    let found : find_row (of_email fragment.email) (merge_person now fragment c).people ≡ some row =
      merge_person-row now fragment c fragment.email ∙ rw (text_eq_refl fragment.email) in
    (
      person_of plugin (merge_person now fragment c) row,
      (unfold person_by_email in rw found),
      (text_eq_iff row.email fragment.email).0
          (find_row_sound (of_email fragment.email) (merge_person now fragment c).people row found),
    )
