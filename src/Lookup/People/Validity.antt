-- ===== src/Lookup/People/Validity.antt =====
-- The keys of the people and platform id tables, and the foreign key between them.
use thaum.Prelude.{
  ℕ, ◌≡◌, refl, ap, ◌≢◌, ◌⊎◌, inl, inr, Bool, Option, none, some, List, [], ◌∷◌, arith, All,
  All-append,
}
use thaum.Text.{Text, text_eq, text_eq_iff}
use thaum.Table.{find_row, add_row}
use thaum.Table.Laws.{IsUnique, add_row-IsUnique, update_row-IsUnique}
use thaum.Dict.{Dict}
use thaum.Identity.{ThaumPerson}
use thaum.Lookup.Cache.{PersonRow, PlatformIdRow, Cache, of_email, of_platform_id}
use thaum.Lookup.People.{renamed, merge_row, add_id, merge_ids, merge_person}
use thaum.Lookup.People.Merging.{renamed-email, merge_person-row}

abbrev pub same_email : PersonRow → PersonRow → Bool
same_email x r = of_email r.email x

abbrev pub same_platform_id : PlatformIdRow → PlatformIdRow → Bool
same_platform_id x r = of_platform_id r.platform_key r.platform_id x

-- The email of a platform id row has a person.
abbrev pub HasOwner : List PersonRow → PlatformIdRow → Type 0
HasOwner people r = find_row (of_email r.email) people ≢ none

-- The primary keys hold, and the foreign key from platform ids to people.
pub record IsValid (c : Cache) : Type 0 where
  pub emails : IsUnique same_email c.people
  pub ids : IsUnique same_platform_id c.platform_ids
  pub owners : All (HasOwner c.people) c.platform_ids

merge_row-IsUnique :
    (now : ℕ) (fragment : ThaumPerson) (o : Option PersonRow) (people : List PersonRow)
    → find_row (of_email fragment.email) people ≡ o
    → IsUnique same_email people
    → IsUnique same_email (merge_row now fragment o people)
merge_row-IsUnique now fragment none people e h =
    unfold merge_row in add_row-IsUnique same_email _ people e h
merge_row-IsUnique now fragment (some row) people e h =
    unfold merge_row in
    update_row-IsUnique same_email (of_email fragment.email) (renamed now fragment) people
      (λ x r. (
        ap (λ m. text_eq x.email m) (renamed-email now fragment r),
        ap (λ m. text_eq m x.email) (renamed-email now fragment r),
      ))
      h

add_id-IsUnique :
    (email key pid : Text) (o : Option PlatformIdRow) (ids : List PlatformIdRow)
    → find_row (of_platform_id key pid) ids ≡ o
    → IsUnique same_platform_id ids
    → IsUnique same_platform_id (add_id email key pid o ids)
add_id-IsUnique email key pid none ids e h =
    unfold add_id in add_row-IsUnique same_platform_id _ ids e h
add_id-IsUnique email key pid (some r) ids e h = unfold add_id in h

add_id-All :
    (P : PlatformIdRow → Type 0) (email key pid : Text) (o : Option PlatformIdRow)
    (ids : List PlatformIdRow)
    → P (record { platform_key = key; platform_id = pid; email = email })
    → All P ids
    → All P (add_id email key pid o ids)
add_id-All P email key pid none ids mine h =
    unfold add_id add_row in All-append P ids _ h (mine, tt)
add_id-All P email key pid (some r) ids mine h = unfold add_id in h

merge_ids-IsUnique :
    (email : Text) (d : Dict Text) (ids : List PlatformIdRow)
    → IsUnique same_platform_id ids
    → IsUnique same_platform_id (merge_ids email d ids)
unfolding merge_ids
merge_ids-IsUnique email [] ids h = h
merge_ids-IsUnique email ((key, pid) ∷ d) ids h =
    merge_ids-IsUnique email d _ (add_id-IsUnique email key pid _ ids refl h)

merge_ids-All :
    (P : PlatformIdRow → Type 0) (email : Text)
    → ((key pid : Text) → P (record { platform_key = key; platform_id = pid; email = email }))
    → (d : Dict Text) (ids : List PlatformIdRow) → All P ids
    → All P (merge_ids email d ids)
unfolding merge_ids
merge_ids-All P email mine [] ids h = h
merge_ids-All P email mine ((key, pid) ∷ d) ids h =
    merge_ids-All P email mine d _ (add_id-All P email key pid _ ids (mine key pid) h)

All-of {ℓ κ} :
    {A : Type ℓ} (P Q : A → Type κ) → ((a : A) → P a → Q a) → (xs : List A) → All P xs → All Q xs
All-of P Q sub [] h = tt
All-of P Q sub (x ∷ xs) (p, h) = (sub x p, All-of P Q sub xs h)

-- A merge removes no person.
pub people_stay :
    (now : ℕ) (fragment : ThaumPerson) (c : Cache) (email : Text)
    → (find_row (of_email email) c.people ≢ none ⊎ (email ≡ fragment.email))
    → find_row (of_email email) (merge_person now fragment c).people ≢ none
people_stay now fragment c email h gone =
    ground (arith, merge_person-row now fragment c email, text_eq_iff fragment.email email)

-- A merge keeps the primary keys of people and platform ids, and every platform id has a person.
pub merge_person-IsValid :
    (now : ℕ) (fragment : ThaumPerson) (c : Cache)
    → IsValid c
    → IsValid (merge_person now fragment c)
merge_person-IsValid now fragment c v =
    let kept =
      merge_ids-All (HasOwner (merge_person now fragment c).people) fragment.email
        (λ key pid. people_stay now fragment c fragment.email (inr refl)) fragment.platform_ids
        c.platform_ids
        (All-of (HasOwner c.people) (HasOwner (merge_person now fragment c).people)
          (λ r h. people_stay now fragment c r.email (inl h)) c.platform_ids v.owners) in
    record {
      emails = unfold merge_person in merge_row-IsUnique now fragment _ c.people refl v.emails;
      ids =
          unfold merge_person in
          merge_ids-IsUnique fragment.email fragment.platform_ids c.platform_ids v.ids;
      owners = unfold merge_person in kept;
    }
