-- ===== src/Jira/Users.antt =====
-- alerts/plugins/jira/users.py: the Jira account of an email.
--
-- The lookup plugin is an argument: none, or what its `get_person_by_email` returns and leaves in the cache
-- (`none` is an exception, which is logged). Its `merge_person` is that of Lookup. The choice among the
-- users that a search finds has the same clauses as in lookup/plugins/atlassian.py.
pub mod Searching
mod Tests
use thaum.Prelude.{ℕ, Option, none, some, [], ◌∷◌, if◌then◌else◌}
use thaum.Text.{Text, codes, truthy, strip, lower}
use thaum.Dict.{get}
use thaum.Identity.{ThaumPerson}
use thaum.Lookup.Cache.{Cache}
use thaum.Lookup.People.{merge_person}
use thaum.Atlassian.Members.{account, JiraUser}
use thaum.Atlassian.People.{
  SearchAnswer, search_raises, unreadable, no_list, users_found, Looked, named_or_none, first_exact,
  first_account, chosen_user,
}

abbrev pub LookupPlugin : Type 0
LookupPlugin = Option (Text → Cache → Looked)

-- The account, and the cache; `none` is an exception.
abbrev pub Resolved : Type 0
Resolved = Option (Option Text × Cache)

unfoldable pub searched_fragment : Text → JiraUser → ThaumPerson
unfolding strip
searched_fragment email_key u = record {
  email = email_key;
  display_name = named_or_none (strip u.display_name);
  platform_ids = (codes "jira", strip u.account_id) ∷ [];
  source_plugin = codes "jira";
}

pub merge_if_there : ℕ → ThaumPerson → Cache → LookupPlugin → Cache
unfolding merge_person
merge_if_there now fragment c none = c
merge_if_there now fragment c (some lookup) = merge_person now fragment c

merge_from : ℕ → Text → LookupPlugin → Cache → Option JiraUser → Option Text × Cache
unfolding merge_if_there searched_fragment strip
merge_from now email_key lookup c none = (none, c)
merge_from now email_key lookup c (some u) =
    (some (strip u.account_id), merge_if_there now (searched_fragment email_key u) c lookup)

unfoldable pub jira_user_search_fallback : ℕ → Text → LookupPlugin → SearchAnswer → Cache → Resolved
unfolding merge_from first_exact first_account chosen_user
jira_user_search_fallback now email_key lookup search_raises c = some (none, c)
jira_user_search_fallback now email_key lookup unreadable c = none
jira_user_search_fallback now email_key lookup no_list c = some (none, c)
jira_user_search_fallback now email_key lookup (users_found users) c = some (
    merge_from now email_key lookup c
      (chosen_user (first_exact email_key users) (first_account users)))

-- `platform_ids.get("jira")` of the person, the empty text where there is none.
pub account_of_person : Option ThaumPerson → Text
unfolding get
account_of_person none = []
account_of_person (some p) = elim (get (codes "jira") p.platform_ids) [ none ↦ [] | some jid ↦ jid ]

or_search : ℕ → Text → LookupPlugin → SearchAnswer → Text → Cache → Resolved
unfolding jira_user_search_fallback
or_search now key lookup answer [] c = jira_user_search_fallback now key lookup answer c
or_search now key lookup answer (j ∷ jid) c = some (some (j ∷ jid), c)

after_lookup : ℕ → Text → LookupPlugin → SearchAnswer → Cache → Looked → Resolved
unfolding or_search account_of_person
after_lookup now key lookup answer c none = or_search now key lookup answer [] c
after_lookup now key lookup answer c (some (person, c')) =
    or_search now key lookup answer (account_of_person person) c'

with_lookup : ℕ → Text → SearchAnswer → Cache → LookupPlugin → Resolved
unfolding after_lookup or_search
with_lookup now key answer c none = or_search now key none answer [] c
with_lookup now key answer c (some lookup) =
    after_lookup now key (some lookup) answer c (lookup key c)

unfoldable pub resolve_email_to_account_id :
    ℕ → LookupPlugin → Text → SearchAnswer → Cache → Resolved
unfolding with_lookup strip lower
resolve_email_to_account_id now lookup email answer c =
    let key = lower (strip email) in
    if truthy key then with_lookup now key answer c lookup else some (none, c)
