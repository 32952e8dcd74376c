-- ===== src/Atlassian/People.antt =====
-- lookup/plugins/atlassian.py: the lookups of a person, over the identity cache.
--
-- The answers of Jira are arguments.
pub mod Exact
use thaum.Prelude.{ℕ, Bool, false, ◌&&◌, Option, none, some, List, [], ◌∷◌, if◌then◌else◌}
use thaum.Text.{Text, text_eq, truthy, strip, strip_opt, lower}
use thaum.Dict.{get}
use thaum.Identity.{ThaumPerson}
use thaum.Lookup.Cache.{Cache}
use thaum.Lookup.People.{
  person_by_email, merge_person, get_person_by_email as cached_by_email,
  get_person_by_id as cached_by_id,
}
use thaum.Atlassian.Teams.{raises, atlassian, jira}
use thaum.Atlassian.Members.{account, JiraUser, fetch_jira_user}

-- An element of the answer to a search.
pub data FoundUser : Type 0 where
  no_user : FoundUser
  found_user : JiraUser → FoundUser

-- The answer: the request raises, its JSON cannot be read (an exception of the lookup), it is no list, or
-- the users.
pub data SearchAnswer : Type 0 where
  search_raises unreadable no_list : SearchAnswer
  users_found : List FoundUser → SearchAnswer

-- What a lookup returns and leaves; `none` is an exception.
abbrev pub Looked : Type 0
Looked = Option (Option ThaumPerson × Cache)

abbrev pub named_or_none : Text → Option Text
named_or_none [] = none
named_or_none (c ∷ s) = some (c ∷ s)

unfoldable pub fragment_from_entry : Text → JiraUser → ThaumPerson
unfolding strip
fragment_from_entry email_key u = record {
  email = email_key;
  display_name = named_or_none (strip u.display_name);
  platform_ids = (jira, strip u.account_id) ∷ [];
  source_plugin = atlassian;
}

-- The first user with an account and the address.
unfoldable pub first_exact : Text → List FoundUser → Option JiraUser
unfolding strip lower text_eq
first_exact email_key [] = none
first_exact email_key (no_user ∷ users) = first_exact email_key users
first_exact email_key (found_user u ∷ users) =
    let rest = first_exact email_key users in
    if truthy (strip u.account_id) && text_eq (lower (strip u.email_address)) email_key
    then some u
    else rest

-- The first user with an account.
unfoldable pub first_account : List FoundUser → Option JiraUser
unfolding strip
first_account [] = none
first_account (no_user ∷ users) = first_account users
first_account (found_user u ∷ users) =
    let rest = first_account users in if truthy (strip u.account_id) then some u else rest

unfoldable pub chosen_user : Option JiraUser → Option JiraUser → Option JiraUser
chosen_user none any_user = any_user
chosen_user (some u) any_user = some u

merge_user : ℕ → Text → Cache → Option JiraUser → Option ThaumPerson × Cache
unfolding fragment_from_entry merge_person person_by_email
merge_user now email_key c none = (none, c)
merge_user now email_key c (some u) =
    let c' = merge_person now (fragment_from_entry email_key u) c in
    (person_by_email atlassian email_key c', c')

unfoldable pub resolve_person_by_email_via_jira : ℕ → Text → SearchAnswer → Cache → Looked
unfolding merge_user first_exact first_account chosen_user
resolve_person_by_email_via_jira now email_key search_raises c = some (none, c)
resolve_person_by_email_via_jira now email_key unreadable c = none
resolve_person_by_email_via_jira now email_key no_list c = some (none, c)
resolve_person_by_email_via_jira now email_key (users_found users) c =
    some
      (merge_user now email_key c (chosen_user (first_exact email_key users) (first_account users)))

-- `cached.platform_ids.get("jira")`, as a Boolean.
unfoldable pub has_jira_id : Option ThaumPerson → Bool
unfolding get
has_jira_id none = false
has_jira_id (some p) = elim (get jira p.platform_ids) [ none ↦ false | some id ↦ truthy id ]

or_cached : Option ThaumPerson → Looked → Looked
or_cached cached none = none
or_cached cached (some (none, c)) = some (cached, c)
or_cached cached (some (some p, c)) = some (some p, c)

unfoldable pub get_person_by_email : ℕ → Option Text → SearchAnswer → Cache → Looked
unfolding strip_opt lower cached_by_email has_jira_id or_cached resolve_person_by_email_via_jira
get_person_by_email now email answer c =
    let key = lower (strip_opt email) in
    let cached = cached_by_email atlassian (some key) c in
    if truthy key
    then if has_jira_id cached
      then some (cached, c)
      else or_cached cached (resolve_person_by_email_via_jira now key answer c)
    else some (none, c)

merge_fragment : ℕ → Cache → Option ThaumPerson → Option ThaumPerson × Cache
unfolding merge_person person_by_email
merge_fragment now c none = (none, c)
merge_fragment now c (some fragment) =
    let c' = merge_person now fragment c in (person_by_email atlassian fragment.email c', c')

cached_or_fetched :
    ℕ
    → Text
    → Text
    → (Text → Option JiraUser)
    → Cache
    → Option ThaumPerson
    → Option ThaumPerson × Cache
unfolding merge_fragment fetch_jira_user strip text_eq
cached_or_fetched now bot_plugin_name person_id users c (some cached) = (some cached, c)
cached_or_fetched now bot_plugin_name person_id users c none =
    if text_eq bot_plugin_name jira
    then merge_fragment now c (fetch_jira_user users (strip person_id))
    else (none, c)

unfoldable pub get_person_by_id :
    ℕ → Text → Text → (Text → Option JiraUser) → Cache → Option ThaumPerson × Cache
unfolding cached_or_fetched cached_by_id
get_person_by_id now bot_plugin_name person_id users c =
    cached_or_fetched now bot_plugin_name person_id users c
      (cached_by_id atlassian bot_plugin_name person_id c)
