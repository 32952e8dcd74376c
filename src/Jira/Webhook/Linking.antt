-- ===== src/Jira/Webhook/Linking.antt =====
-- Create webhooks, and the way of an alert from its queueing to the messages in its room.
use thaum.Prelude.{
  ℕ, ◌≤◌, ◌≡◌, ◌∙◌, inl, inr, false, ◌&&◌, Option, none, some, List, [], arith, if◌then◌else◌,
  Bool-cases, length,
}
use thaum.Text.{Text, codes, text_eq, text_eq_iff, truthy, strip}
use thaum.Jira.Mapping.{
  AlertRow, parse_short_id_from_alias, mapping_for_alias, apply_create_webhook,
}
use thaum.Jira.Mapping.Keys.{IsValid}
use thaum.Jira.Webhook.{
  text_of, Payload, StatusBot, StatusConfig, Context, Message, Outcome, bot_key_text, username_text,
  room_of, sender_of, said, route, announced, linked, create_action, say_status_message, announce,
  spoken, routed, status_action, handle_jira_status_webhook,
}
use thaum.Text.Strip.{strip_idem}
use thaum.Jira.Mapping.Validity.{apply_create_webhook-IsValid}

-- Stripping the alias before the lookup changes nothing.
pub mapping_for_alias-strip :
    (alias bot_key : Text) (t : List AlertRow)
    → mapping_for_alias (strip alias) bot_key t ≡ mapping_for_alias alias bot_key t
mapping_for_alias-strip alias bot_key t = unfold mapping_for_alias in rw (strip_idem alias)

apply_create_webhook-unknown :
    (jid bot_key alias short_fb sender_fb : Text) (t : List AlertRow)
    → mapping_for_alias alias bot_key t ≡ none
    → apply_create_webhook jid bot_key alias short_fb [] sender_fb t ≡ some t
unfolding apply_create_webhook mapping_for_alias
apply_create_webhook-unknown jid bot_key alias short_fb sender_fb t unknown = ground arith

create_action-unknown :
    (bot : StatusBot) (payload : Payload) (t : List AlertRow)
    → mapping_for_alias (text_of payload.alert.alias) (bot_key_text bot) t ≡ none
    → create_action bot payload t ≡ some (t, [])
unfolding create_action linked room_of
create_action-unknown bot payload t unknown =
    let alias = strip (text_of payload.alert.alias) in
    let bk = bot_key_text bot in
    let missing : mapping_for_alias alias bk t ≡ none = mapping_for_alias-strip _ bk t ∙ unknown in
    let none_found : (if truthy alias && truthy bk then mapping_for_alias alias bk t else none)
        ≡ none =
      ground arith in
    rw none_found (
      ground (
        arith,
        apply_create_webhook-unknown (strip (text_of payload.alert.alert_id)) bk alias
            (parse_short_id_from_alias alias) (sender_of none) t missing,
      ))

pub linked-some :
    (o : Option (List AlertRow)) (t' : List AlertRow) (messages : List Message)
    → linked o ≡ some (t', messages)
    → (o ≡ some t') × (messages ≡ [])
unfolding linked
linked-some o t' messages h = ground arith

create_action-IsValid :
    (bot : StatusBot) (payload : Payload) (t t' : List AlertRow) (messages : List Message)
    → IsValid t
    → create_action bot payload t ≡ some (t', messages)
    → IsValid t'
unfolding create_action
create_action-IsValid bot payload t t' messages v done =
    elim (Bool-cases (truthy (bot_key_text bot))) [
      | inl e ↦
          let bk = bot_key_text bot in
          let alias = strip (text_of payload.alert.alias) in
          let jid = strip (text_of payload.alert.alert_id) in
          apply_create_webhook-IsValid jid bk alias (parse_short_id_from_alias alias) _ _ t t' v
            (linked-some _ t' messages (rw e at done)).0
      | inr e ↦ let same : t ≡ t' = ground arith in rw (← same) v
    ]

announced-some :
    (t : List AlertRow) (o : Option (List Message)) (t' : List AlertRow) (messages : List Message)
    → announced t o ≡ some (t', messages)
    → (t' ≡ t) × (o ≡ some messages)
unfolding announced
announced-some t o t' messages h = ground arith

module _ (render : Text → Context → Option Text) where
  say_status_message-single :
      (cfg : StatusConfig) (room template : Text) (ctx : Context) (messages : List Message)
      → say_status_message render cfg room template ctx ≡ some messages
      → length messages ≤ 1
  unfolding say_status_message said
  say_status_message-single cfg room template ctx messages done = ground arith

  announce-single :
      (cfg : StatusConfig) (action room : Text) (created : Option ℕ) (now : ℕ) (ctx : Context)
      (messages : List Message)
      → announce render cfg action room created now ctx ≡ some messages
      → length messages ≤ 1
  unfolding announce
  announce-single cfg action room created now ctx messages done = ground (
    arith,
    say_status_message-single cfg room cfg.ack_template ctx messages,
    say_status_message-single cfg room cfg.unack_template ctx messages,
    say_status_message-single cfg room cfg.escalate_template ctx messages,
    say_status_message-single cfg room cfg.accidental_close_template ctx messages,
  )

  spoken-effect :
      (bot : StatusBot) (cfg : StatusConfig) (now : ℕ) (payload : Payload) (t t' : List AlertRow)
      (messages : List Message) (row : Option AlertRow) (u : Option Text)
      → spoken render bot cfg now payload t row u ≡ some (t', messages)
      → (t' ≡ t) × (length messages ≤ 1)
  unfolding spoken
  spoken-effect bot cfg now payload t t' messages row none done = ground arith
  spoken-effect bot cfg now payload t t' messages row (some u) done =
      let (same, said) = announced-some t _ t' messages done in
      (
        same,
        announce-single cfg (text_of payload.action) (room_of row) payload.alert.created_at now _
            messages said,
      )

  status_action-effect :
      (bot : StatusBot) (cfg : StatusConfig) (now : ℕ) (payload : Payload) (t t' : List AlertRow)
      (messages : List Message)
      → status_action render bot cfg now payload t ≡ some (t', messages)
      → (t' ≡ t) × (length messages ≤ 1)
  unfolding status_action routed
  status_action-effect bot cfg now payload t t' messages done =
      let row =
        route (strip (text_of payload.alert.alert_id)) (strip (text_of payload.alert.alias))
          (bot_key_text bot) t in
      ground (
        arith,
        spoken-effect bot cfg now payload t t' messages row (username_text payload.alert.username),
      )

  -- The branch that a handled webhook took.
  pub unfolded :
      (bot : StatusBot) (cfg : StatusConfig) (now : ℕ) (payload : Payload) (t : List AlertRow)
      {o : Outcome}
      → handle_jira_status_webhook render bot cfg now payload t ≡ o
      → (if text_eq (text_of payload.action) (codes "Create")
          then create_action bot payload t
          else status_action render bot cfg now payload t)
        ≡ o
  unfolding handle_jira_status_webhook
  unfolded bot cfg now payload t h = h

  -- Whatever the webhook, if the handler returns, the table keeps its key and its unique column.
  pub handle_jira_status_webhook-IsValid :
      (bot : StatusBot) (cfg : StatusConfig) (now : ℕ) (payload : Payload) (t t' : List AlertRow)
      (messages : List Message)
      → IsValid t
      → handle_jira_status_webhook render bot cfg now payload t ≡ some (t', messages)
      → IsValid t'
  handle_jira_status_webhook-IsValid bot cfg now payload t t' messages v done =
      elim (Bool-cases (text_eq (text_of payload.action) (codes "Create"))) [
        | inl e ↦
            create_action-IsValid bot payload t t' messages v
              (rw e at (unfolded bot cfg now payload t done))
        | inr e ↦
            rw
              (status_action-effect bot cfg now payload t t' messages
                (rw e at (unfolded bot cfg now payload t done))).0
              v
      ]

  -- A Create webhook for an alias that has no row changes nothing and says nothing: the handler
  -- links rows and never makes one.
  pub create_unknown_alias :
      (bot : StatusBot) (cfg : StatusConfig) (now : ℕ) (payload : Payload) (t : List AlertRow)
      → text_of payload.action ≡ codes "Create"
      → mapping_for_alias (text_of payload.alert.alias) (bot_key_text bot) t ≡ none
      → handle_jira_status_webhook render bot cfg now payload t ≡ some (t, [])
  create_unknown_alias bot cfg now payload t create unknown =
      unfold handle_jira_status_webhook in
      rw ((text_eq_iff (text_of payload.action) (codes "Create")).1 create)
        (create_action-unknown bot payload t unknown)

  -- Every other action leaves the table as it is, and says at most one message.
  pub status_action_effect :
      (bot : StatusBot) (cfg : StatusConfig) (now : ℕ) (payload : Payload) (t t' : List AlertRow)
      (messages : List Message)
      → text_eq (text_of payload.action) (codes "Create") ≡ false
      → handle_jira_status_webhook render bot cfg now payload t ≡ some (t', messages)
      → (t' ≡ t) × (length messages ≤ 1)
  status_action_effect bot cfg now payload t t' messages not_create done =
      status_action-effect bot cfg now payload t t' messages
        (rw not_create at (unfolded bot cfg now payload t done))
