-- ===== src/Jira/Users/Searching.antt =====
-- alerts/plugins/jira/users.py: the search of Jira where the lookup knows no account.
use thaum.Lookup.People.{merge_person}
use thaum.Prelude.{ℕ, ◌≡◌, refl, sym, ap, ◌∙◌, ◌⊎◌, inl, inr, true, Option, none, some, List, [], ◌∷◌, ◌++◌, if◌then◌else◌}
use thaum.Text.{Text, codes, truthy, strip, lower}
use thaum.Identity.{ThaumPerson}
use thaum.Lookup.Cache.{Cache}
use thaum.Atlassian.Members.{account, JiraUser}
use thaum.Atlassian.People.{FoundUser, found_user, SearchAnswer, users_found, named_or_none, first_account, chosen_user}
use thaum.Atlassian.People.Exact.{is_exact, HasNoExact, first_exact-there}
use thaum.Jira.Users.{LookupPlugin, searched_fragment, merge_if_there, merge_from, jira_user_search_fallback, account_of_person, or_search, after_lookup, with_lookup, resolve_email_to_account_id}

-- The plugin raises or knows no account, and leaves this cache; with no plugin, the cache as it was.
abbrev pub IsSilent : LookupPlugin → Text → Cache → Cache → Type 0
IsSilent none key c c' = c' ≡ c
IsSilent (some lookup) key c c' =
    ((lookup key c ≡ none) × (c' ≡ c))
    ⊎ ((person : Option ThaumPerson) × (lookup key c ≡ some (person, c'))
        × (account_of_person person ≡ []))

with_lookup-silent :
    (now : ℕ) (key : Text) (answer : SearchAnswer) (c c' : Cache) (lookup : LookupPlugin)
    → IsSilent lookup key c c'
    → with_lookup now key answer c lookup ≡ jira_user_search_fallback now key lookup answer c'
unfolding with_lookup after_lookup or_search
with_lookup-silent now key answer c c' none same =
    ap (jira_user_search_fallback now key none answer) (sym same)
with_lookup-silent now key answer c c' (some lookup) (inl (raised, same)) =
    ap (after_lookup now key (some lookup) answer c) raised
    ∙ ap (jira_user_search_fallback now key (some lookup) answer) (sym same)
with_lookup-silent now key answer c c' (some lookup) (inr (person, returned, unknown)) =
    ap (after_lookup now key (some lookup) answer c) returned
    ∙ ap (λ jid. or_search now key (some lookup) answer jid c') unknown

-- The cache afterwards: the person with the address and the account is merged if there is a plugin.
abbrev pub IsMerged : ℕ → Text → JiraUser → LookupPlugin → Cache → Cache → Type 0
IsMerged now key u none c c' = c' ≡ c
IsMerged now key u (some lookup) c c' =
    c' ≡ merge_person now
      (record {
        email = key;
        display_name = if truthy (strip u.display_name) then some (strip u.display_name) else none;
        platform_ids = (codes "jira", strip u.account_id) ∷ [];
        source_plugin = codes "jira";
      }) c

shown : (s : Text) → named_or_none s ≡ (if truthy s then some s else none)
shown [] = refl
shown (c ∷ s) = refl

merge_if_there-IsMerged :
    (now : ℕ) (key : Text) (u : JiraUser) (lookup : LookupPlugin) (c : Cache)
    → IsMerged now key u lookup c (merge_if_there now (searched_fragment key u) c lookup)
unfolding merge_if_there searched_fragment
merge_if_there-IsMerged now key u none c = refl
merge_if_there-IsMerged now key u (some lookup) c = rw (shown (strip u.display_name)) refl

-- Without a lookup plugin, or with one that raises or knows no account of the email, the account of the
-- first user of the search with the address is the answer; with a plugin the person of that email, account
-- and name is merged into the cache, and without one the cache stays as it is.
pub resolve_email_to_account_id_exact :
    (now : ℕ) (lookup : LookupPlugin) (email : Text) (before after : List FoundUser) (u : JiraUser)
    (c c' : Cache)
    → truthy (lower (strip email)) ≡ true
    → HasNoExact (lower (strip email)) before
    → is_exact (lower (strip email)) u ≡ true
    → IsSilent lookup (lower (strip email)) c c'
    → (merged : Cache)
      × (resolve_email_to_account_id now lookup email (users_found (before ++ found_user u ∷ after)) c
        ≡ some (some (strip u.account_id), merged))
      × IsMerged now (lower (strip email)) u lookup c' merged
unfolding resolve_email_to_account_id jira_user_search_fallback or_search merge_from chosen_user
resolve_email_to_account_id_exact now lookup email before after u c c' there none_before exact
      silent =
    let key = lower (strip email) in
    let answer = users_found (before ++ found_user u ∷ after) in
    let fallback : jira_user_search_fallback now key lookup answer c'
        ≡ some (some (strip u.account_id), merge_if_there now (searched_fragment key u) c' lookup) =
      ap
        (λ o. some (
          merge_from now key lookup c'
            (chosen_user o (first_account (before ++ found_user u ∷ after)))))
        (first_exact-there key before after u none_before exact) in
    (merge_if_there now (searched_fragment key u) c' lookup,
      ap (λ b. if b then with_lookup now key answer c lookup else some (none, c)) there
      ∙ with_lookup-silent now key answer c c' lookup silent
      ∙ fallback,
      merge_if_there-IsMerged now key u lookup c')
