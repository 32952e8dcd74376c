-- ===== src/Config/Alerting.antt =====
-- bots/base.py: the alert settings of a bot, which must agree.
use thaum.Prelude.{◌≡◌, ◌≢◌, ◌↔◌, Bool, true, false, not, ◌&&◌, arith, if◌then◌else◌}
use thaum.Text.{Text, codes, text_eq, text_eq_iff}

pub record BaseChatBotConfig : Type 0 where
  pub send_alerts : Bool
  pub high_pri_on : Bool
  pub alert_type : Text

-- `false` is the ValueError.
unfoldable pub consistent_alert_settings : BaseChatBotConfig → Bool
unfolding text_eq
consistent_alert_settings c =
    let is_null = text_eq c.alert_type (codes "null") in
    if c.send_alerts && is_null
    then false
    else if not c.send_alerts && not is_null
    then false
    else if c.high_pri_on && not c.send_alerts
    then false
    else true

-- A bot's alert settings are accepted exactly when its alerts are on if and only if it has a plugin
-- for them, and its high priority is on only if its alerts are.
pub consistent_alert_settings_iff :
    (c : BaseChatBotConfig)
    → (consistent_alert_settings c ≡ true) ↔ (
        ((c.send_alerts ≡ true) ↔ (c.alert_type ≢ codes "null"))
        × (c.high_pri_on ≡ true → c.send_alerts ≡ true))
unfolding consistent_alert_settings
consistent_alert_settings_iff c = ground (arith, text_eq_iff c.alert_type (codes "null"))
