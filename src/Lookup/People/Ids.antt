-- ===== src/Lookup/People/Ids.antt =====
-- Merging a fragment: whose a platform id is, and the keys of the two tables.
use thaum.Prelude.{
  ℕ, ◌≡◌, refl, ◌∙◌, subst, inl, inr, Bool, true, false, ◌&&◌, ◌||◌, Option, none, some, List, [],
  ◌∷◌, arith, if◌then◌else◌, Bool-cases,
}
use thaum.Text.{Text, text_eq, text_eq_iff, truthy}
use thaum.Table.{find_row}
use thaum.Table.Laws.{find_row-add_row}
use thaum.Dict.{Dict}
use thaum.Identity.{ThaumPerson}
use thaum.Lookup.Cache.{PlatformIdRow, Cache, of_platform_id}
use thaum.Lookup.People.{person_by_email, get_person_by_id, add_id, merge_ids, merge_person}
use thaum.Lookup.People.Merging.{merge_person-person}

-- The dictionary maps the key to the id.
abbrev pub has_pair : Text → Text → Dict Text → Bool
has_pair key pid [] = false
has_pair key pid ((k, v) ∷ d) = (text_eq k key && text_eq v pid) || has_pair key pid d

-- Whose an id is after a merge, from the row that it had.
abbrev pub owner_row : Text → Text → Text → Bool → Option PlatformIdRow → Option PlatformIdRow
owner_row key pid email claimed (some r) = some r
owner_row key pid email claimed none =
    if claimed then some (record { platform_key = key; platform_id = pid; email = email }) else none

add_id-find :
    (email key pid k p : Text) (o : Option PlatformIdRow) (ids : List PlatformIdRow)
    → find_row (of_platform_id k p) ids ≡ o
    → find_row (of_platform_id key pid) (add_id email k p o ids)
      ≡ owner_row key pid email
          (text_eq k key && text_eq p pid)
          (find_row (of_platform_id key pid) ids)
add_id-find email key pid k p none ids e =
    unfold add_id in
    find_row-add_row (of_platform_id key pid) _ ids
    ∙ ground (arith, text_eq_iff k key, text_eq_iff p pid)
add_id-find email key pid k p (some r) ids e =
    unfold add_id in
    elim (Bool-cases (text_eq k key && text_eq p pid)) [
      | inl same ↦
          let known : find_row (of_platform_id key pid) ids ≡ some r =
            subst (λ x. find_row (of_platform_id x pid) ids ≡ some r)
              ((text_eq_iff k key).0 (ground arith))
              (subst (λ x. find_row (of_platform_id k x) ids ≡ some r)
                ((text_eq_iff p pid).0 (ground arith)) e) in
          rw known
      | inr apart ↦ rw apart (ground arith)
    ]

merge_ids-find :
    (email key pid : Text) (d : Dict Text) (ids : List PlatformIdRow)
    → find_row (of_platform_id key pid) (merge_ids email d ids)
      ≡ owner_row key pid email (has_pair key pid d) (find_row (of_platform_id key pid) ids)
unfolding merge_ids
merge_ids-find email key pid [] ids = ground arith
merge_ids-find email key pid ((k, p) ∷ d) ids =
    merge_ids-find email key pid d _ ∙ rw (add_id-find email key pid k p _ ids refl) (ground arith)

-- A merge never takes a platform id from the email that has it: an id that is known keeps its row,
-- an unknown one of the fragment goes to the fragment's email, and no other appears.
pub merge_person-platform_id :
    (now : ℕ) (fragment : ThaumPerson) (c : Cache) (key pid : Text)
    → find_row (of_platform_id key pid) (merge_person now fragment c).platform_ids
      ≡ owner_row key pid fragment.email
          (has_pair key pid fragment.platform_ids)
          (find_row (of_platform_id key pid) c.platform_ids)
merge_person-platform_id now fragment c key pid =
    unfold merge_person in
    merge_ids-find fragment.email key pid fragment.platform_ids c.platform_ids

-- A person who was merged with a platform id that nobody had is found by that id: the lookup by id
-- and the lookup by the email return the same person.
pub get_person_by_id-merge_person :
    (plugin : Text) (now : ℕ) (fragment : ThaumPerson) (c : Cache) (key pid : Text)
    → truthy fragment.email ≡ true
    → has_pair key pid fragment.platform_ids ≡ true
    → find_row (of_platform_id key pid) c.platform_ids ≡ none
    → (p : ThaumPerson) × (get_person_by_id plugin key pid (merge_person now fragment c) ≡ some p)
      × (person_by_email plugin fragment.email (merge_person now fragment c) ≡ some p)
      × (p.email ≡ fragment.email)
get_person_by_id-merge_person plugin now fragment c key pid named has free =
    let (p, found, mail) = merge_person-person plugin now fragment c in
    let row : find_row (of_platform_id key pid) (merge_person now fragment c).platform_ids
        ≡ some (record { platform_key = key; platform_id = pid; email = fragment.email }) =
      merge_person-platform_id now fragment c key pid ∙ rw (free, has) in
    (p, (unfold get_person_by_id in rw row (rw named found)), found, mail)
