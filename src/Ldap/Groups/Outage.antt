-- ===== src/Ldap/Groups/Outage.antt =====
-- lookup/plugins/ldap_ad.py with lookup/base.py: a refresh of a team while the directory is out of reach.
use thaum.Prelude.{
  ℕ, ◌-◌, ◌≡◌, refl, ap, ◌∙◌, ◌⊎◌, inl, inr, Bool, false, ◌&&◌, Option, none, some, List, [], ◌∷◌,
  arith, ltb, ◌==◌, if◌then◌else◌, Bool-cases, if-elim,
}
use thaum.Text.{Text, codes, truthy}
use thaum.Identity.{ThaumTeam, is_fresh, fetched}
use thaum.Lookup.Cache.{Cache}
use thaum.Lookup.Teams.{present, get_team_by_name, cache_team, merge_team, lookup_team_members}
use thaum.Ldap.People.{GroupLookupIdMode, dn, name, LdapConfig, Directory, ldap_ad, equals_filter}
use thaum.Ldap.Groups.{
  lookup_id_of, members_of_group, group_base, members_by_mode, or_empty, fetch_team_members,
}
use thaum.Lookup.Teams.Snapshot.{get_team_by_name-cache_team}

-- No connection is made, or every search raises.
abbrev pub IsOut : Directory → Type 0
IsOut dir =
    (dir.connects ≡ false)
    ⊎ ((base filter : Text) (attributes : List Text) → dir.search base filter attributes ≡ none)

members_by_mode-out :
    (cfg : LdapConfig) (dir : Directory) (id : Text)
    → ((base filter : Text) (attributes : List Text) → dir.search base filter attributes ≡ none)
    → (mode : GroupLookupIdMode) → or_empty (members_by_mode cfg dir id mode) ≡ []
unfolding members_by_mode members_of_group or_empty
members_by_mode-out cfg dir id raises dn = elim (Bool-cases (truthy id)) [
  | inl there ↦
      rw (there, raises id (codes "(objectClass=*)") (cfg.group_member_attribute ∷ [])) refl
  | inr empty ↦ rw empty refl
]
members_by_mode-out cfg dir id raises name =
    rw
      (raises (group_base cfg) (equals_filter cfg.group_name_attribute (dir.escape_filter_chars id))
        (cfg.group_id_attribute ∷ cfg.group_member_attribute ∷ []))
      refl

fetch_team_members-out :
    (cfg : LdapConfig) (dir : Directory) (team : ThaumTeam)
    → IsOut dir
    → fetch_team_members cfg dir team ≡ []
unfolding fetch_team_members
fetch_team_members-out cfg dir team (inl closed) = rw closed ground arith
fetch_team_members-out cfg dir team (inr raises) =
    if-elim (λ ms. ms ≡ []) (truthy (lookup_id_of cfg team) && dir.connects)
      (or_empty (members_by_mode cfg dir (lookup_id_of cfg team) cfg.group_lookup_id_mode)) []
      (λ _. members_by_mode-out cfg dir (lookup_id_of cfg team) raises cfg.group_lookup_id_mode)
      (λ _. refl)

-- A refresh that fetched nobody commits.
empty_team :
    (enforced : Bool) (fallback_ttl now : ℕ) (team : ThaumTeam) (c : Cache)
    → let team' : ThaumTeam = record team {
      members = [];
      last_cached = now;
      ttl = if team.ttl == 0 then fallback_ttl else team.ttl;
    } in
      (c' : Cache) × (lookup_team_members ldap_ad enforced fallback_ttl now (some []) team c
        ≡ (c', fetched team' []))
      × (cache_team enforced fallback_ttl none team' c ≡ some c')
unfolding lookup_team_members merge_team cache_team
empty_team enforced fallback_ttl now team c = (_, refl, refl)

-- A team that is refreshed while the directory is out of reach loses its members: the refresh does not
-- fail but stores an empty team, and the next lookup by the name gives a team without members that
-- counts as fresh for its time to live.
pub lookup_team_members-outage :
    (cfg : LdapConfig) (dir : Directory) (close : Text → List Text → Option Text) (enforced : Bool)
    (fallback_ttl now : ℕ) (team : ThaumTeam) (c : Cache)
    → IsOut dir
    → (team.ttl == 0) ≡ false
    → (c' : Cache) × (left : ThaumTeam) × (t : ThaumTeam) × (lookup_team_members ldap_ad enforced
          fallback_ttl now
          (some (fetch_team_members cfg dir team))
          team
          c
        ≡ (c', fetched left []))
      × (get_team_by_name ldap_ad close team.team_name c' ≡ some t)
      × (t.members ≡ [])
      × ((later : ℕ) → is_fresh later t ≡ ltb (later - now) team.ttl)
unfolding present
lookup_team_members-outage cfg dir close enforced fallback_ttl now team c out lasting =
    let team' : ThaumTeam = record team {
      members = [];
      last_cached = now;
      ttl = if team.ttl == 0 then fallback_ttl else team.ttl;
    } in
    let (c', refreshed, stored) = empty_team enforced fallback_ttl now team c in
    let (t, found, called, clock, ttl, members) =
      get_team_by_name-cache_team ldap_ad close enforced fallback_ttl none team' c c' stored in
    let lasts : t.ttl ≡ team.ttl = ttl ∙ rw lasting (rw lasting refl) in
    (
      c',
      team',
      t,
      ap (λ ms. lookup_team_members ldap_ad enforced fallback_ttl now (some ms) team c)
            (fetch_team_members-out cfg dir team out)
          ∙ refreshed,
      found,
      members,
      (λ later. unfold is_fresh in rw (lasts, clock) refl),
    )
