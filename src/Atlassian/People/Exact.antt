-- ===== src/Atlassian/People/Exact.antt =====
-- lookup/plugins/atlassian.py, get_person_by_email: the account of the address is taken and kept.
use thaum.Prelude.{ℕ, ◌≡◌, refl, Bool, true, false, ◌&&◌, Option, some, List, [], ◌∷◌, ◌++◌}
use thaum.Text.{Text, text_eq, truthy, strip, lower}
use thaum.Identity.{ThaumPerson}
use thaum.Lookup.Cache.{Cache}
use thaum.Lookup.People.{get_person_by_email as cached_by_email}
use thaum.Atlassian.Teams.{jira}
use thaum.Atlassian.Members.{JiraUser}
use thaum.Atlassian.People.{
  FoundUser, no_user, found_user, Looked, first_exact, get_person_by_email, get_person_by_id,
}

-- A user with an account and the address.
abbrev pub is_exact : Text → JiraUser → Bool
is_exact key u = truthy (strip u.account_id) && text_eq (lower (strip u.email_address)) key

-- Nobody among them has an account and the address.
abbrev pub HasNoExact : Text → List FoundUser → Type 0
HasNoExact key [] = Unit
HasNoExact key (no_user ∷ users) = HasNoExact key users
HasNoExact key (found_user u ∷ users) = (is_exact key u ≡ false) × HasNoExact key users

pub first_exact-there :
    (key : Text) (before after : List FoundUser) (u : JiraUser)
    → HasNoExact key before
    → is_exact key u ≡ true
    → first_exact key (before ++ found_user u ∷ after) ≡ some u
unfolding first_exact
first_exact-there key [] after u none_before exact = rw exact refl
first_exact-there key (no_user ∷ before) after u none_before exact =
    first_exact-there key before after u none_before exact
first_exact-there key (found_user v ∷ before) after u (differs, none_before) exact =
    rw differs (first_exact-there key before after u none_before exact)

abbrev Settled : ℕ → Text → Text → (Text → Option JiraUser) → Looked → Type 0
Settled later key account_id users r =
    (p : ThaumPerson) × (c' : Cache) × (r ≡ some (some p, c'))
    × (p.email ≡ key)
    × (get_person_by_id later jira account_id users c' ≡ (some p, c'))
