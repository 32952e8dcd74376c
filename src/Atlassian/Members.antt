-- ===== src/Atlassian/Members.antt =====
-- lookup/plugins/atlassian.py, fetch_team_members: the accounts of a team and their users.
--
-- The server's answer to a request for members is a function of the cursor, with fuel, one unit for each
-- page; `none` is a run out of fuel. The text of a user is what `str(... or "")` gives; `lower` is exact
-- on ASCII.
use thaum.Prelude.{
  ℕ, zero, suc, Bool, true, false, Option, none, some, List, [], ◌∷◌, ◌++◌, if◌then◌else◌,
}
use thaum.Text.{Text, truthy, or_else, strip, lower, one_of}
use thaum.Identity.{ThaumPerson, ThaumTeam}
use thaum.Atlassian.Teams.{next_cursor, atlassian, jira}

-- A field of an object: false as a Boolean, a text, or another value that is true.
pub data Field : Type 0 where
  falsy odd : Field
  text_field : Text → Field

-- An element of a list in the payload.
pub data MemberEntry : Type 0 where
  no_member : MemberEntry
  account : Text → MemberEntry
  member_object : (account_id id : Field) → MemberEntry

text_of_field : Field → Text
unfolding strip
text_of_field falsy = []
text_of_field odd = []
text_of_field (text_field s) = strip s

-- `accountId or id`, stripped, where it is a text.
either_field : Field → Field → Text
unfolding text_of_field
either_field falsy id = text_of_field id
either_field odd id = []
either_field (text_field []) id = text_of_field id
either_field (text_field (c ∷ s)) id = text_of_field (text_field (c ∷ s))

id_of_entry : MemberEntry → Text
unfolding either_field strip
id_of_entry no_member = []
id_of_entry (account s) = strip s
id_of_entry (member_object account_id id) = either_field account_id id

-- The ids of one list, before those that `rest` gives.
ids_before : List MemberEntry → List Text → List Text
unfolding id_of_entry
ids_before [] rest = rest
ids_before (entry ∷ entries) rest =
    let later = ids_before entries rest in
    let id = id_of_entry entry in if truthy id then id ∷ later else later

-- The values of the keys results, entities, members and accountIds that are lists, in this order.
unfoldable pub ids_of_lists : List (List MemberEntry) → List Text
unfolding ids_before
ids_of_lists [] = []
ids_of_lists (entries ∷ lists) = ids_before entries (ids_of_lists lists)

unfoldable pub dedupe : List Text → List Text → List Text
unfolding one_of
dedupe seen [] = []
dedupe seen (i ∷ ids) =
    let old = one_of i seen in
    let rest = dedupe (if old then seen else i ∷ seen) ids in if old then rest else i ∷ rest

unfoldable pub extract_account_ids_from_members_payload : List (List MemberEntry) → List Text
unfolding ids_of_lists dedupe
extract_account_ids_from_members_payload lists = dedupe [] (ids_of_lists lists)

-- The answer: an exception, JSON that is no object, or the lists with `pageInfo`: whether it has a next
-- page, and its end cursor where that is a text.
pub data MembersAnswer : Type 0 where
  members_raise no_members_page : MembersAnswer
  members_page :
      List (List MemberEntry) → (has_next : Bool) (end_cursor : Option Text) → MembersAnswer

-- The ids that are yielded, and whether the iteration ended without an exception.
pub record AccountIds : Type 0 where
  pub ids : List Text
  pub complete : Bool

add_ids : List Text → Option AccountIds → Option AccountIds
add_ids ids none = none
add_ids ids (some later) = some (record later { ids = ids ++ later.ids })

after_members : List Text → Bool → Option Text → (Text → Option AccountIds) → Option AccountIds
unfolding add_ids
after_members ids false cursor go_on = some (record { ids = ids; complete = true })
after_members ids true none go_on = some (record { ids = ids; complete = true })
after_members ids true (some cursor) go_on = add_ids ids (go_on cursor)

on_members : MembersAnswer → (Text → Option AccountIds) → Option AccountIds
unfolding after_members next_cursor extract_account_ids_from_members_payload
on_members members_raise go_on = some (record { ids = []; complete = false })
on_members no_members_page go_on = some (record { ids = []; complete = true })
on_members (members_page lists has_next end_cursor) go_on =
    after_members (extract_account_ids_from_members_payload lists) has_next (next_cursor end_cursor)
      go_on

unfoldable pub iter_member_account_ids :
    ℕ → (Option Text → MembersAnswer) → Option Text → Option AccountIds
unfolding on_members
iter_member_account_ids zero ask after = none
iter_member_account_ids (suc n) ask after =
    on_members (ask after) (λ next. iter_member_account_ids n ask (some next))

-- A user of Jira.
pub record JiraUser : Type 0 where
  pub account_id : Text
  pub email_address : Text
  pub display_name : Text

user_fragment : Text → Option JiraUser → Option ThaumPerson
unfolding strip lower
user_fragment account_id none = none
user_fragment account_id (some u) =
    let email = lower (strip u.email_address) in
    if truthy email
    then some (record {
      email = email;
      display_name = some (strip u.display_name);
      platform_ids = (jira, account_id) ∷ [];
      source_plugin = atlassian;
    })
    else none

-- The server's users: `none` where the request raises or gives no object.
unfoldable pub fetch_jira_user : (Text → Option JiraUser) → Text → Option ThaumPerson
unfolding user_fragment
fetch_jira_user users account_id = user_fragment account_id (users account_id)

add_person : Option ThaumPerson → List ThaumPerson → List ThaumPerson
add_person none people = people
add_person (some p) people = p ∷ people

unfoldable pub people_of : (Text → Option JiraUser) → List Text → List ThaumPerson
unfolding fetch_jira_user add_person
people_of users [] = []
people_of users (id ∷ ids) =
    let rest = people_of users ids in add_person (fetch_jira_user users id) rest

-- An exception of the iteration gives no members.
people_if_complete : (Text → Option JiraUser) → AccountIds → List ThaumPerson
unfolding people_of
people_if_complete users accounts = if accounts.complete then people_of users accounts.ids else []

members_of_ids : (Text → Option JiraUser) → Option AccountIds → Option (List ThaumPerson)
unfolding people_if_complete
members_of_ids users none = none
members_of_ids users (some accounts) = some (people_if_complete users accounts)

unfoldable pub team_id_of : ThaumTeam → Text
unfolding strip
team_id_of team = strip (
    or_else (elim team.lookup_id [ none ↦ [] | some id ↦ id ])
      (elim team.alert_id [ none ↦ [] | some id ↦ id ]))

-- `ask` depends on the team's id.
unfoldable pub fetch_team_members :
    ℕ
    → (Text → Option Text → MembersAnswer)
    → (Text → Option JiraUser)
    → ThaumTeam
    → Option (List ThaumPerson)
unfolding team_id_of iter_member_account_ids members_of_ids
fetch_team_members n ask users team =
    let team_id = team_id_of team in
    if truthy team_id
    then members_of_ids users (iter_member_account_ids n (ask team_id) none)
    else some []
