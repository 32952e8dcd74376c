-- ===== src/Jira/Plugin/Tests.antt =====
-- An alert that is triggered, and acknowledged from the chat.
use thaum.Prelude.{ℕ, Bool, false, Option, none, some, List, [], ◌∷◌, ◌++◌}
use thaum.Text.{Text, codes, text_eq, truthy}
use thaum.Identity.{ThaumPerson, person_of_email}
use thaum.Jira.Mapping.{AlertRow}
use thaum.Jira.Payload.{AlertBody}
use thaum.Jira.Plugin.{PluginBot, PluginConfig, then_do, chat_account, assign_to}

abbrev bot : PluginBot
bot = record { bot_key = some (codes "ops"); handle = codes "opsbot"; plugin_name = codes "webex" }

abbrev config : PluginConfig
config = record { priority_normal = codes "P3"; priority_high = codes "P1" }

abbrev ann : ThaumPerson
ann = person_of_email (codes "ann@x.org")

abbrev accepts : AlertBody → Bool
accepts body = text_eq body.priority (codes "P1")

abbrev jira_id : Text → Option Text
jira_id alias = some (codes "J-" ++ alias)

abbrev takes_all : Text → Bool
takes_all jid = truthy jid

abbrev refuses : Text → Text → Bool
refuses jid account = false

abbrev accounts : Text → Option Text
accounts email = some (codes "a1")

abbrev picks : List ℕ
picks = 0 ∷ 1 ∷ 30 ∷ 31 ∷ []

abbrev alias : Text
alias = codes "THAUM-20260102-AB89"

abbrev table : List AlertRow
table =
    record {
      bot_key = codes "ops";
      alias = alias;
      short_id = codes "AB89";
      room_id = codes "room1";
      jira_alert_id = none;
      sender_name = codes "ann@x.org";
    }
    ∷ []
