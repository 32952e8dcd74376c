-- ===== src/Jira/Users/Tests.antt =====
-- Tests of the search for a Jira account.
use thaum.Prelude.{◌≡◌, refl, inl, true, false, none, some, [], ◌∷◌}
use thaum.Text.{Text, codes, text_eq, truthy, is_space, lstrip, rstrip, strip, lower_char, lower}
use thaum.Lookup.Cache.{Cache, empty_cache}
use thaum.Atlassian.Members.{account, JiraUser}
use thaum.Atlassian.People.{found_user, users_found}
use thaum.Atlassian.People.Exact.{is_exact}
use thaum.Jira.Users.{LookupPlugin, resolve_email_to_account_id}
use thaum.Jira.Users.Searching.{IsMerged, resolve_email_to_account_id_exact}

abbrev user : Text → Text → JiraUser
user id address = record { account_id = id; email_address = address; display_name = [] }

abbrev email : Text
email = codes "J@x "

abbrev raising : LookupPlugin
raising = some (λ key c. none)

resolve_email_to_account_id_exact_example :
    (merged : Cache)
    × (resolve_email_to_account_id 3 raising email
        (users_found (found_user (user (codes "5") (codes "o@x")) ∷ found_user (user (codes "6") (codes "j@X")) ∷ []))
        empty_cache
      ≡ some (some (strip (codes "6")), merged))
    × IsMerged 3 (lower (strip email)) (user (codes "6") (codes "j@X")) raising empty_cache merged
resolve_email_to_account_id_exact_example =
    resolve_email_to_account_id_exact 3 raising email
      (found_user (user (codes "5") (codes "o@x")) ∷ []) [] (user (codes "6") (codes "j@X"))
      empty_cache empty_cache there (differs, tt) exact (inl (refl, refl))
  where
    there : truthy (lower (strip email)) ≡ true
    there = unfold lower lower_char strip lstrip rstrip is_space in refl

    differs : is_exact (lower (strip email)) (user (codes "5") (codes "o@x")) ≡ false
    differs = unfold lower lower_char strip lstrip rstrip is_space text_eq in refl

    exact : is_exact (lower (strip email)) (user (codes "6") (codes "j@X")) ≡ true
    exact = unfold lower lower_char strip lstrip rstrip is_space text_eq in refl
