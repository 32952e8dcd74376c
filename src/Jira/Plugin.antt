-- ===== src/Jira/Plugin.antt =====
-- alerts/plugins/jira/plugin.py: paging through Jira, and the acknowledgement that comes from the
-- chat.
--
-- Parameters: what Jira answers. `none` as an answer is an exception of the request, and a refusal
-- is an answer of an error status. The responders are those that `_resolve_alert_responders` and
-- `_enrich_team_alert_ids` leave; their payload is that of Jira.Payload.
pub mod Acknowledging
mod Tests
use thaum.Prelude.{
  ℕ, Bool, true, false, not, ◌&&◌, Option, none, some, List, [], ◌∷◌, ◌++◌, if◌then◌else◌,
}
use thaum.Text.{Text, codes, truthy, strip, strip_opt, upper}
use thaum.Dict.{get}
use thaum.Identity.{ThaumPerson, for_display, failed, responders}
use thaum.Alerts.{generate_short_id}
use thaum.Jira.Mapping.{AlertRow, upsert_pending_row, mapping_for_short_id}
use thaum.Jira.Payload.{AlertPriority, Responder, AlertBody, build_trigger_alert_body}

pub record PluginBot : Type 0 where
  pub bot_key : Option Text
  pub handle : Text
  pub plugin_name : Text

pub record PluginConfig : Type 0 where
  pub priority_normal : Text
  pub priority_high : Text

abbrev pub key_of : PluginBot → Text
key_of bot = elim bot.bot_key [ none ↦ [] | some k ↦ k ]

abbrev pub when {ℓ} : {A : Type ℓ} → Bool → A → Option A
when true a = some a
when false a = none

-- What `trigger_alert` returns, and the table; `none` where the request fails, before the table is
-- touched.
unfoldable pub trigger_alert :
    (posts : AlertBody → Bool) (bot : PluginBot) (cfg : PluginConfig) (date : Text) (picks : List ℕ)
    (payload : List Responder) (summary room_id : Text) (sender : ThaumPerson)
    (priority : AlertPriority)
    → List AlertRow
    → Option ((Text × Text) × List AlertRow)
unfolding generate_short_id build_trigger_alert_body upsert_pending_row for_display
trigger_alert posts bot cfg date picks payload summary room_id sender priority table =
    let short_id = generate_short_id picks in
    let body =
      build_trigger_alert_body summary bot.handle sender priority cfg.priority_normal
        cfg.priority_high short_id date payload bot.plugin_name in
    when (posts body) (
      (short_id, body.alias),
      upsert_pending_row (key_of bot) body.alias short_id room_id (for_display sender) table,
    )

-- What an acknowledgement does to the outside, in order.
pub data Effect : Type 0 where
  look_up_alias : Text → Effect
  acknowledge : Text → Effect
  assign : Text → Text → Effect
  say : Text → Text → Effect

-- The effects, and whether an exception leaves the method.
pub record Acknowledgement : Type 0 where
  pub effects : List Effect
  pub raised : Bool

abbrev pub then_do : List Effect → Acknowledgement → Acknowledgement
then_do es a = record a { effects = es ++ a.effects }

raises : Acknowledgement
raises = record { effects = []; raised = true }

-- A message in the room, where there is one.
say_in : Text → Text → Acknowledgement
say_in [] message = record { effects = []; raised = false }
say_in (c ∷ room) message = record { effects = say (c ∷ room) message ∷ []; raised = false }

-- The columns of a row that may be missing.
unfoldable pub field_of : (AlertRow → Text) → Option AlertRow → Text
unfolding strip
field_of column none = []
field_of column (some row) = strip (column row)

unfoldable pub stored_id : Option AlertRow → Text
unfolding strip_opt
stored_id none = []
stored_id (some row) = strip_opt row.jira_alert_id

module _ (alias_answer : Text → Option Text) (acknowledges : Text → Bool)
    (assigns : Text → Text → Bool) (resolve : Text → Option Text) where
  -- The account of the person: the stored one, or the resolved one; `none` where resolving raises.
  pub chat_account : ThaumPerson → Option Text
  unfolding strip_opt strip get
  chat_account person =
      let own = strip_opt (get (codes "jira") person.platform_ids) in
      if truthy own
      then some own
      else elim (resolve person.email) [ none ↦ none | some a ↦ some (strip a) ]

  unfoldable pub assign_to : Text → Text → Text → ThaumPerson → Option Text → Acknowledgement
  unfolding say_in for_display raises
  assign_to jid room short_id person none = raises
  assign_to jid room short_id person (some []) = say_in room (
      codes "Alert **"
      ++ short_id
      ++ codes "** acknowledged, but I could not assign it to "
      ++ for_display person
      ++ codes ".")
  assign_to jid room short_id person (some (c ∷ account)) =
      then_do (assign jid (c ∷ account) ∷ []) (
        if assigns jid (c ∷ account)
        then record { effects = []; raised = false }
        else say_in room (
            codes "Alert **"
            ++ short_id
            ++ codes "** acknowledged, but assignment to "
            ++ for_display person
            ++ codes " failed."))

  -- The alert is known.
  unfoldable pub acknowledge_id : Text → Text → Text → ThaumPerson → Acknowledgement
  unfolding assign_to chat_account raises
  acknowledge_id [] room short_id person = raises
  acknowledge_id (c ∷ jid) room short_id person = then_do (acknowledge (c ∷ jid) ∷ []) (
      if acknowledges (c ∷ jid)
      then assign_to (c ∷ jid) room short_id person (chat_account person)
      else raises)

  found_by_alias : Text → Text → ThaumPerson → Option Text → Acknowledgement
  unfolding acknowledge_id strip raises
  found_by_alias room short_id person none = raises
  found_by_alias room short_id person (some jid) = acknowledge_id (strip jid) room short_id person

  unfoldable pub acknowledge_row : Text → ThaumPerson → Option AlertRow → Acknowledgement
  unfolding stored_id field_of found_by_alias
  acknowledge_row short_id person row =
      let alias = field_of (λ r. r.alias) row in
      if not (truthy (stored_id row)) && truthy alias
      then then_do (look_up_alias alias ∷ [])
          (found_by_alias (field_of (λ r. r.room_id) row) short_id person (alias_answer alias))
      else acknowledge_id (stored_id row) (field_of (λ r. r.room_id) row) short_id person

  unfoldable pub acknowledge_alert :
      PluginBot → Text → ThaumPerson → List AlertRow → Acknowledgement
  unfolding acknowledge_row mapping_for_short_id strip upper
  acknowledge_alert bot alias person table =
      let short_id = upper (strip alias) in
      acknowledge_row short_id person
        (if truthy (key_of bot) then mapping_for_short_id short_id (key_of bot) table else none)
