-- ===== src/Atlassian/Tests.antt =====
-- Tests of the lookup in Atlassian Cloud, with a server of two pages.
use thaum.Lookup.People.{get_person_by_email as cached_by_email}
use thaum.Prelude.{
  ℕ, ◌≤◌, ◌≡◌, refl, true, Option, none, some, List, [], ◌∷◌, ◌++◌, arith, ltb, length,
}
use thaum.Text.{Text, codes, text_eq, is_space, lstrip, rstrip, strip, one_of}
use thaum.Atlassian.Teams.{
  TeamEntry, no_object, team_entry, TeamAnswer, team_page, entities_of, next_cursor, atlassian,
  jira, Preloaded, preload_entries, preload_teams_cache,
}
use thaum.Atlassian.Teams.Pages.{
  PagesFrom, last_page, and_page, all_entries, preload_teams_cache-PagesFrom,
}
use thaum.Table.{find_row}
use thaum.Identity.{ThaumTeam, default_ttl, is_fresh}
use thaum.Lookup.Cache.{Cache, empty_cache, of_team_platform_id}
use thaum.Lookup.Teams.{get_team_by_id}
use thaum.Atlassian.Teams.Preloading.{HasOtherId, HasOtherName, preload_teams_cache-found}
use thaum.Atlassian.Members.{
  falsy, text_field, no_member, account, member_object, ids_of_lists, dedupe,
  extract_account_ids_from_members_payload,
}
use thaum.Atlassian.People.{FoundUser, found_user, get_person_by_email}

abbrev first_page : List TeamEntry
first_page = no_object ∷ team_entry (codes "t1") (codes "Ops") ∷ []

abbrev second_page : List TeamEntry
second_page = team_entry (codes " t2") (codes "DBA ") ∷ team_entry (codes "t3") [] ∷ []

abbrev ask : Option Text → TeamAnswer
ask none = team_page (some first_page) (some (codes " c1 "))
ask (some cursor) = team_page (some second_page) (some (codes "  "))

two_pages : PagesFrom ask none (first_page ∷ second_page ∷ [])
unfolding entities_of
two_pages =
    and_page (some first_page) (some (codes " c1 ")) (codes "c1") refl
      (unfold next_cursor strip lstrip rstrip is_space in refl)
      (last_page (some second_page) (some (codes "  ")) refl
        (unfold next_cursor strip lstrip rstrip is_space in refl))

free :
    find_row (of_team_platform_id jira (strip (codes " t2"))) empty_cache.team_platform_ids ≡ none
unfolding find_row
free = refl

preload_teams_cache-found_example :
    (done : Preloaded) × (t : ThaumTeam) × (preload_teams_cache 2 true 7 ask empty_cache
      ≡ some (true, done))
    × (get_team_by_id atlassian (λ s names. none) jira (strip (codes " t2")) done.0 ≡ some t)
    × (t.members ≡ [])
    × ((now : ℕ) → is_fresh now t ≡ ltb now default_ttl)
preload_teams_cache-found_example =
    preload_teams_cache-found 2 true 7 (λ s names. none) ask empty_cache
      (first_page ∷ second_page ∷ []) first_page (team_entry (codes "t3") [] ∷ []) (codes " t2")
      (codes "DBA ") two_pages in_two joined (unfold strip lstrip rstrip is_space in refl)
      (unfold strip lstrip rstrip is_space in refl) free other_id other_name
  where
    in_two : length (first_page ∷ second_page ∷ []) ≤ 2
    in_two = omega arith

    joined :
        all_entries (first_page ∷ second_page ∷ [])
        ≡ first_page ++ team_entry (codes " t2") (codes "DBA ") ∷ team_entry (codes "t3") [] ∷ []
    joined = unfold all_entries in refl

    other_id : HasOtherId (strip (codes " t2")) first_page
    other_id = (unfold strip lstrip rstrip is_space text_eq in refl, tt)

    other_name : HasOtherName (strip (codes "DBA ")) (team_entry (codes "t3") [] ∷ [])
    other_name = (unfold strip lstrip rstrip is_space text_eq in refl, tt)

preload_teams_cache-PagesFrom_example :
    preload_teams_cache 2 true 7 ask empty_cache
    ≡ some (
      true,
      preload_entries true 7 (all_entries (first_page ∷ second_page ∷ [])) (empty_cache, 0),
    )
preload_teams_cache-PagesFrom_example =
    preload_teams_cache-PagesFrom 2 true 7 ask empty_cache (first_page ∷ second_page ∷ []) two_pages
      in_two
  where
    in_two : length (first_page ∷ second_page ∷ []) ≤ 2
    in_two = omega arith

repeated :
    extract_account_ids_from_members_payload (
      (account (codes "a ") ∷ member_object falsy (text_field (codes "b")) ∷ [])
      ∷ (account (codes "a") ∷ no_member ∷ [])
      ∷ [])
    ≡ codes "a" ∷ codes "b" ∷ []
unfolding extract_account_ids_from_members_payload ids_of_lists dedupe one_of strip lstrip rstrip
    is_space text_eq
repeated = refl

abbrev user : Text → Text → FoundUser
user id email =
    found_user (record { account_id = id; email_address = email; display_name = codes "J" })

abbrev email : Option Text
email = some (codes " J@x")
