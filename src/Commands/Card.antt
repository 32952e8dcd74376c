-- ===== src/Commands/Card.antt =====
-- thaum/handlers.py, _is_valid_incident_card and _incident_prompt_card: the card that asks for a summary.
--
-- Parameters: the template engine, the parser of JSON and the file system; `none` is an exception.
use thaum.Prelude.{Bool, true, false, ◌&&◌, Option, none, some, [], if◌then◌else◌}
use thaum.Text.{Text, codes, text_eq, truthy, or_else, strip, strip_opt}

-- The kinds of value that the test tells apart, and the text of a `type`.
pub data Kind : Type 0 where
  string : Text → Kind
  list : Kind
  other : Kind

pub data Json : Type 0 where
  object : (type version body actions : Option Kind) → Json
  no_object : Json

unfoldable pub is_card_type : Option Kind → Bool
unfolding text_eq
is_card_type (some (string t)) = text_eq t (codes "AdaptiveCard")
is_card_type k = false

unfoldable pub is_text : Option Kind → Bool
is_text (some (string t)) = true
is_text k = false

unfoldable pub is_list : Option Kind → Bool
is_list (some list) = true
is_list k = false

unfoldable pub is_valid_incident_card : Json → Bool
unfolding is_card_type is_text is_list
is_valid_incident_card no_object = false
is_valid_incident_card (object type version body actions) =
    is_card_type type && is_text version && is_list body && is_list actions

pub record CardBot : Type 0 where
  pub incident_prompt_card_template : Option Text
  pub incident_prompt_card_template_path : Option Text
  pub card_extra_text_template : Option Text
  pub team_description : Text
  pub display_name : Option Text
  pub handle : Text
  pub phone_number : Option Text
  pub send_alerts : Bool
  pub high_pri_on : Bool
  pub base_url : Option Text

pub record CardContext : Type 0 where
  pub team_description : Text
  pub bot_name : Text
  pub phone_number : Text
  pub send_alerts : Bool
  pub extra_card_text : Text
  pub show_phone : Bool
  pub show_extra_card_text : Bool
  pub default_high_priority : Bool
  pub show_priority_toggle : Bool
  pub base_url : Text

-- What the extra text is rendered with.
pub record ExtraContext : Type 0 where
  pub team_description : Text
  pub bot_name : Text
  pub phone_number : Text
  pub send_alerts : Bool
  pub default_high_priority : Bool

pub record Templates : Type 0 where
  pub render_extra : Text → ExtraContext → Option Text
  pub render : Text → CardContext → Option Text
  pub loads : Text → Option Json
  pub read_text : Text → Option Text
  pub default_template : Text

abbrev pub blank_if_raised : Option Text → Text
unfolding strip
blank_if_raised none = []
blank_if_raised (some t) = strip t

abbrev pub bot_name : CardBot → Text
unfolding strip_opt strip
bot_name bot = or_else (strip_opt bot.display_name) bot.handle

unfoldable pub extra_card_text : Templates → CardBot → Bool → Text
unfolding strip_opt strip
extra_card_text t bot default_high_priority =
    let extra_tpl = strip_opt bot.card_extra_text_template in
    if truthy extra_tpl
    then blank_if_raised (
        t.render_extra extra_tpl (record {
          team_description = bot.team_description;
          bot_name = bot_name bot;
          phone_number = strip_opt bot.phone_number;
          send_alerts = bot.send_alerts;
          default_high_priority = default_high_priority;
        }))
    else []

unfoldable pub card_context : Templates → CardBot → Bool → CardContext
unfolding extra_card_text strip_opt strip
card_context t bot default_high_priority =
    let phone = strip_opt bot.phone_number in
    let extra = extra_card_text t bot default_high_priority in
    record {
      team_description = bot.team_description;
      bot_name = bot_name bot;
      phone_number = phone;
      send_alerts = bot.send_alerts;
      extra_card_text = extra;
      show_phone = truthy phone;
      show_extra_card_text = truthy extra;
      default_high_priority = default_high_priority;
      show_priority_toggle = bot.high_pri_on;
      base_url = elim bot.base_url [ none ↦ [] | some url ↦ url ];
    }

abbrev pub only_valid : Option Json → Option Json
unfolding is_valid_incident_card
only_valid none = none
only_valid (some card) = if is_valid_incident_card card then some card else none

abbrev pub load_rendered : Templates → Option Text → Option Json
load_rendered t none = none
load_rendered t (some rendered) = only_valid (t.loads rendered)

unfoldable pub render_card : Templates → CardContext → Text → Option Json
unfolding is_valid_incident_card
render_card t context source = load_rendered t (t.render source context)

unfoldable pub card_source : Templates → CardBot → Option Text
unfolding strip_opt strip
card_source t bot =
    let inline_template = strip_opt bot.incident_prompt_card_template in
    let template_path = strip_opt bot.incident_prompt_card_template_path in
    if truthy inline_template
    then some inline_template
    else if truthy template_path
    then t.read_text template_path
    else some t.default_template

abbrev pub render_source : Templates → CardContext → Option Text → Option Json
unfolding render_card
render_source t context none = none
render_source t context (some source) = render_card t context source

unfoldable pub or_default : Templates → CardContext → Option Json → Option Json
unfolding render_card
or_default t context none = render_card t context t.default_template
or_default t context (some card) = some card

unfoldable pub incident_prompt_card : Templates → CardBot → Bool → Option Json
unfolding card_context card_source or_default render_card
incident_prompt_card t bot default_high_priority =
    let context = card_context t bot default_high_priority in
    or_default t context (render_source t context (card_source t bot))
