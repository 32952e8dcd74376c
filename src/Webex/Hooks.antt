-- ===== src/Webex/Hooks.antt =====
-- bots/plugins/webex_bot.py: the webhooks of a bot at Webex.
--
-- The webhooks at Webex are a list. Parameters: the splitting of an URL into host, path and query with
-- its inverse (urllib), and which calls of the API succeed. The bot's endpoint is given stripped.
pub mod Registered
use thaum.Prelude.{
  ℕ, ◌-◌, Bool, true, false, not, ◌&&◌, Option, none, some, List, [], ◌∷◌, ◌++◌, ltb, if◌then◌else◌,
}
use thaum.Text.{Text, codes, text_eq, truthy, lower, rstrip_char}
use thaum.Table.{add_row, delete_where}

pub record Webhook : Type 0 where
  pub id : Text
  pub name : Text
  pub target_url : Text
  pub resource : Text
  pub status : Option Text
  pub secret : Option Text

pub record UrlLibrary : Type 0 where
  pub netloc : Text → Text
  pub path_and_query : Text → Text
  pub unsplit : (netloc path_and_query : Text) → Text

unfoldable pub normalize_target_url : Text → Text
unfolding rstrip_char
normalize_target_url url = rstrip_char b'/' url

unfoldable pub normalize_target_url_for_prune : UrlLibrary → Text → Text
unfolding normalize_target_url
normalize_target_url_for_prune lib url =
    let normalized = normalize_target_url url in
    if truthy (lib.netloc normalized)
    then lib.unsplit (lib.netloc normalized) (lib.path_and_query normalized)
    else normalized

-- Whether a webhook leads to the endpoint.
unfoldable pub leads_to : UrlLibrary → Text → Webhook → Bool
unfolding normalize_target_url_for_prune text_eq
leads_to lib target wh =
    truthy wh.target_url
    && text_eq (normalize_target_url_for_prune lib wh.target_url)
        (normalize_target_url_for_prune lib target)

unfoldable pub has_id : Text → Webhook → Bool
unfolding text_eq
has_id id wh = text_eq wh.id id

-- Whether the deletion of an id and the creation of a resource succeed.
pub record Api : Type 0 where
  pub lists : Bool
  pub deletes : Text → Bool
  pub creates : Text → Bool
  pub new_id : Text → Text

-- The webhooks that were listed, one by one; an exception ends the pruning and is logged.
unfoldable pub prune : UrlLibrary → Api → Text → List Webhook → List Webhook → List Webhook
unfolding leads_to has_id delete_where
prune lib api target [] hooks = hooks
prune lib api target (wh ∷ existing) hooks =
    let here = leads_to lib target wh in
    let rest =
      prune lib api target existing (if here then delete_where (has_id wh.id) hooks else hooks) in
    if here && not (api.deletes wh.id) then hooks else rest

pub record HookBot : Type 0 where
  pub endpoint : Text
  pub handle : Text
  pub bot_key : Text

unfoldable pub name_prefix : HookBot → Text
name_prefix bot =
    let start = codes "Thaum " ++ bot.handle in
    if truthy bot.bot_key then start ++ codes " [" ++ bot.bot_key ++ codes "]" else start

unfoldable pub new_hook : Api → HookBot → Option Text → Text → Webhook
unfolding name_prefix
new_hook api bot secret resource = record {
  id = api.new_id resource;
  name = name_prefix bot ++ codes " " ++ resource;
  target_url = bot.endpoint;
  resource = resource;
  status = some (codes "active");
  secret = secret;
}

abbrev pub messages : Text
messages = codes "messages"

abbrev pub attachment_actions : Text
attachment_actions = codes "attachmentActions"

-- The ids that the bot holds, and the webhooks; `none` where an exception is raised.
abbrev pub Registration : Type 0
Registration = Option (Option (Text × Text)) × List Webhook

create_second : Api → HookBot → Option Text → List Webhook → Registration
unfolding new_hook add_row
create_second api bot secret hooks =
    if api.creates attachment_actions
    then (
      some (some (api.new_id messages, api.new_id attachment_actions)),
      add_row (new_hook api bot secret attachment_actions) hooks,
    )
    else (none, hooks)

create_hooks : Api → HookBot → Option Text → List Webhook → Registration
unfolding new_hook create_second add_row
create_hooks api bot secret hooks =
    if api.creates messages
    then create_second api bot secret (add_row (new_hook api bot secret messages) hooks)
    else (none, hooks)

-- `ids` are those that the bot holds before.
unfoldable pub register_bot_webhook :
    UrlLibrary → Api → HookBot → Option Text → Option (Text × Text) → List Webhook → Registration
unfolding prune create_hooks
register_bot_webhook lib api bot secret ids hooks =
    if truthy bot.endpoint
    then create_hooks api bot secret
        (if api.lists then prune lib api bot.endpoint hooks hooks else hooks)
    else (some ids, hooks)

-- What fetching a webhook of the bot gives: `none` is an exception, `some none` a missing one.
unfoldable pub is_healthy : HookBot → Option (Option Webhook) → Bool
unfolding normalize_target_url text_eq lower
is_healthy bot none = false
is_healthy bot (some none) = false
is_healthy bot (some (some wh)) =
    not (
      truthy wh.target_url
      && not (text_eq (normalize_target_url wh.target_url) (normalize_target_url bot.endpoint)))
    && elim wh.status [ none ↦ true | some status ↦ text_eq (lower status) (codes "active") ]

-- The probe's state: when it ran last, and the ids.
pub record Probe : Type 0 where
  pub last_probe : Option ℕ
  pub ids : Option (Text × Text)

unfoldable pub is_early : ℕ → ℕ → Option ℕ → Bool
is_early now interval none = false
is_early now interval (some last) = ltb (now - last) interval

-- A registration that raises leaves no ids where the probe dropped them.
after_registration : ℕ → Option (Text × Text) → Registration → Bool × Probe × List Webhook
after_registration now kept (none, hooks) =
    (false, record { last_probe = some now; ids = kept }, hooks)
after_registration now kept (some ids, hooks) =
    (true, record { last_probe = some now; ids = ids }, hooks)

probe_ids :
    UrlLibrary
    → Api
    → HookBot
    → Option Text
    → (Text → Option (Option Webhook))
    → ℕ
    → List Webhook
    → Option (Text × Text)
    → Bool × Probe × List Webhook
unfolding after_registration register_bot_webhook is_healthy
probe_ids lib api bot secret fetch now hooks none =
    after_registration now none (register_bot_webhook lib api bot secret none hooks)
probe_ids lib api bot secret fetch now hooks (some (w1, w2)) =
    if is_healthy bot (fetch w1) && is_healthy bot (fetch w2)
    then (true, record { last_probe = some now; ids = some (w1, w2) }, hooks)
    else after_registration now none (register_bot_webhook lib api bot secret none hooks)

-- False is an exception.
unfoldable pub probe_webhook_status :
    UrlLibrary
    → Api
    → HookBot
    → Option Text
    → (Text → Option (Option Webhook))
    → ℕ
    → ℕ
    → Probe
    → List Webhook
    → Bool × Probe × List Webhook
unfolding probe_ids is_early
probe_webhook_status lib api bot secret fetch now interval p hooks =
    if is_early now interval p.last_probe
    then (true, p, hooks)
    else if truthy bot.endpoint
    then probe_ids lib api bot secret fetch now hooks p.ids
    else (true, record p { last_probe = some now }, hooks)
