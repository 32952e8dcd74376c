-- ===== src/Jira/Plugin/Acknowledging.antt =====
-- alerts/plugins/jira/plugin.py: an alert that was queued is the one that its short id acknowledges.
use thaum.Dict.{get}
use thaum.Prelude.{◌≡◌, ◌⊎◌, Bool, true, false, Option, none, some, List, [], ◌∷◌, if◌then◌else◌}
use thaum.Text.{Text, codes, truthy, strip}
use thaum.Identity.{ThaumPerson}
use thaum.Jira.Plugin.{Effect, assign, say, Acknowledgement}

-- The person has no Jira id, or a blank one.
abbrev pub HasNoOwn : ThaumPerson → Type 0
HasNoOwn person =
    (get (codes "jira") person.platform_ids ≡ none)
    ⊎ ((own : Text) × (get (codes "jira") person.platform_ids ≡ some own) × (strip own ≡ []))

module _ (alias_answer : Text → Option Text) (acknowledges : Text → Bool)
    (assigns : Text → Text → Bool) (resolve : Text → Option Text) where
  -- The Jira account of a person: the stripped id that the person has, or else the stripped one that the
  -- email resolves to; empty where there is none.
  pub data HasChatAccount (person : ThaumPerson) : Text → Type 0 where
    by_own :
        {own : Text}
        → get (codes "jira") person.platform_ids ≡ some own
        → truthy (strip own) ≡ true
        → HasChatAccount person (strip own)
    by_email :
        {account : Text}
        → HasNoOwn person
        → resolve person.email ≡ some account
        → HasChatAccount person (strip account)

  -- What follows the acknowledgement of `jid`, as effects and whether an exception leaves: resolving
  -- raises; nobody has an account, and the room is told; or the account is assigned, and the room is
  -- told if and only if Jira refuses that.
  pub data IsHandedOver (jid room : Text) (person : ThaumPerson) : List Effect → Bool → Type 0 where
    unresolved : HasNoOwn person → resolve person.email ≡ none → IsHandedOver jid room person [] true
    told : (message : Text) → HasChatAccount person [] → IsHandedOver jid room person (say room message ∷ []) false
    assigned :
        {account : Text}
        → HasChatAccount person account
        → truthy account ≡ true
        → assigns jid account ≡ true
        → IsHandedOver jid room person (assign jid account ∷ []) false
    refused :
        {account : Text} (message : Text)
        → HasChatAccount person account
        → truthy account ≡ true
        → assigns jid account ≡ false
        → IsHandedOver jid room person (assign jid account ∷ say room message ∷ []) false

  abbrev HandedOver : Text → Text → ThaumPerson → Acknowledgement → Type 0
  HandedOver jid room person a = IsHandedOver jid room person a.effects a.raised
