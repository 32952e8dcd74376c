-- ===== src/Jira/Webhook/Messages.antt =====
-- The way of an alert: queued by `trigger_alert`, linked by Jira's Create webhook, and announced in
-- its room.
use thaum.Prelude.{
  ℕ, ◌≡◌, refl, ◌∙◌, subst, inl, inr, true, false, not, ◌&&◌, Option, none, some, List, [], ◌∷◌,
  arith, Bool-cases,
}
use thaum.Text.{Text, codes, text_eq, text_eq_iff, truthy, or_else, lstrip, rstrip, strip}
use thaum.Jira.Webhook.{
  text, text_of, Payload, StatusBot, StatusConfig, Context, Message, bot_key_text, username_text,
  status_context, room_of, sender_of, said, route, announced, create_action, say_status_message,
  announce, spoken, routed, status_action, handle_jira_status_webhook,
}
use thaum.Jira.Mapping.{
  AlertRow, parse_short_id_from_alias, upsert_pending_row, mapping_for_jira_alert_id,
  apply_create_webhook,
}
use thaum.Jira.Mapping.Lookup.{
  IsComplete, mapping_for_alias-upsert_pending_row, mapping_for_jira_alert_id-apply_create_webhook,
}
use thaum.Jira.Webhook.Linking.{mapping_for_alias-strip, linked-some, unfolded}
use thaum.Text.Strip.{strip_idem}

-- A template that renders in every context.
abbrev pub Renders : (Text → Context → Option Text) → Text → Type 0
Renders render template = (ctx : Context) → (m : Text) × (render template ctx ≡ some m)

-- One message, to the given room.
abbrev pub SaysOnce : Text → List Message → Type 0
SaysOnce room messages = (m : Message) × (messages ≡ m ∷ []) × (m.room ≡ room)

module _ (render : Text → Context → Option Text) where
  say_status_message-SaysOnce :
      (cfg : StatusConfig) (room template : Text) (ctx : Context)
      → Renders render template
      → (ms : List Message) × (say_status_message render cfg room template ctx ≡ some ms)
        × SaysOnce room ms
  unfolding say_status_message said
  say_status_message-SaysOnce cfg room template ctx total =
      let (m, e) = total ctx in
      let (p, f) = total (record ctx { responder_mention = ctx.responder_name }) in
      elim (Bool-cases
        (cfg.status_mentions && not (text_eq ctx.responder_mention ctx.responder_name))) [
          | inl both ↦ (
            record { room = room; text = p; markdown = some m } ∷ [],
            rw both (rw (e, f)),
            (record { room = room; text = p; markdown = some m }, refl, refl),
          )
          | inr one ↦ (
            record { room = room; text = m; markdown = none } ∷ [],
            rw one (rw e),
            (record { room = room; text = m; markdown = none }, refl, refl),
          )
        ]

truthy_of_strip : (s : Text) → truthy (strip s) ≡ true → truthy s ≡ true
truthy_of_strip [] h = unfold strip lstrip rstrip in h
truthy_of_strip (c ∷ s) h = refl

create_action-linked :
    (bot : StatusBot) (payload : Payload) (t t' : List AlertRow) (messages : List Message)
    → truthy (bot_key_text bot) ≡ true
    → create_action bot payload t ≡ some (t', messages)
    → (room sender : Text) × (apply_create_webhook
          (strip (text_of payload.alert.alert_id))
          (bot_key_text bot)
          (strip (text_of payload.alert.alias))
          (parse_short_id_from_alias (strip (text_of payload.alert.alias)))
          room
          sender
          t
        ≡ some t')
unfolding create_action
create_action-linked bot payload t t' messages has_key done =
    (_, _, (linked-some _ t' messages (rw has_key at done)).0)

route_by_id :
    (jid alias bk : Text) (t : List AlertRow) (r : AlertRow)
    → mapping_for_jira_alert_id jid bk t ≡ some r
    → truthy (strip r.room_id) ≡ true
    → route jid alias bk t ≡ some r
unfolding route room_of
route_by_id jid alias bk t r e has_room = rw (e) (rw has_room)

module _ (render : Text → Context → Option Text) (bot : StatusBot) (cfg : StatusConfig) (now : ℕ)
    (payload : Payload) where
  -- An action on a linked alert speaks in the room of its row.
  status_action-routed :
      (t : List AlertRow) (r : AlertRow) (u : Text)
      → truthy (strip (text_of payload.alert.alert_id)) ≡ true
      → mapping_for_jira_alert_id (strip (text_of payload.alert.alert_id)) (bot_key_text bot) t
        ≡ some r
      → truthy (strip r.room_id) ≡ true
      → payload.alert.username ≡ text u
      → status_action render bot cfg now payload t
        ≡ announced t (
            announce render cfg
              (text_of payload.action)
              (strip r.room_id)
              payload.alert.created_at
              now
              (status_context bot cfg (or_else (strip r.sender_name) (codes "Someone")) (strip u)))
  status_action-routed t r u has_id found has_room named =
      unfold status_action in
      rw
        (route_by_id (strip (text_of payload.alert.alert_id)) (strip (text_of payload.alert.alias))
          (bot_key_text bot) t r found has_room)
        (unfold routed spoken room_of sender_of username_text in rw (has_id, has_room) (rw named))

  acknowledge_announced :
      (t : List AlertRow) (room : Text) (ctx : Context)
      → text_of payload.action ≡ codes "Acknowledge"
      → Renders render cfg.ack_template
      → (ms : List Message) × (announced t
            (announce render cfg (text_of payload.action) room payload.alert.created_at now ctx)
          ≡ some (t, ms))
        × SaysOnce room ms
  unfolding announce announced text_eq
  acknowledge_announced t room ctx action total =
      let (ms, e, once) = say_status_message-SaysOnce render cfg room cfg.ack_template ctx total in
      (ms, rw action (rw e), once)

-- A Create webhook that commits leads the alert id to the row that was queued for the alias.
create_links_queued :
    (bot : StatusBot) (create : Payload) (short_id room_id sender_name : Text)
    (t t' : List AlertRow) (messages : List Message)
    → IsComplete (bot_key_text bot) (text_of create.alert.alias) short_id room_id
    → truthy (strip (text_of create.alert.alert_id)) ≡ true
    → create_action bot create (
        upsert_pending_row
          (bot_key_text bot)
          (text_of create.alert.alias)
          short_id
          room_id
          sender_name
          t)
      ≡ some (t', messages)
    → (r : AlertRow) × (mapping_for_jira_alert_id
          (strip (text_of create.alert.alert_id))
          (bot_key_text bot)
          t'
        ≡ some r)
      × (r.room_id ≡ strip room_id)
create_links_queued bot create short_id room_id sender_name t t' messages complete has_id done =
    let bk = bot_key_text bot in
    let alias = text_of create.alert.alias in
    let jid = text_of create.alert.alert_id in
    let t1 = upsert_pending_row bk alias short_id room_id sender_name t in
    let (room, sender, applied) =
      create_action-linked bot create t1 t' messages (truthy_of_strip bk (ground arith)) done in
    let queued =
      mapping_for_alias-strip alias bk t1
      ∙ mapping_for_alias-upsert_pending_row bk alias short_id room_id sender_name t complete in
    let again : truthy (strip (strip jid)) ≡ true = rw (strip_idem jid) has_id in
    (
      _,
      (mapping_for_jira_alert_id-apply_create_webhook (strip jid) bk (strip alias)
          (parse_short_id_from_alias (strip alias)) room sender t1 t' _ again queued applied).0,
      refl,
    )

-- An alert queued with a room is announced there: after Jira's Create webhook for the alias has
-- been handled, an Acknowledge webhook for the same alert id, with a username, leaves the table
-- alone and says exactly one message, in the room that was given when the alert was queued, if the
-- template for it renders.
pub queued_alert_announced :
    (render : Text → Context → Option Text) (bot : StatusBot) (cfg : StatusConfig) (now later : ℕ)
    (short_id room_id sender_name u : Text) (create ack : Payload) (t t' : List AlertRow)
    (messages : List Message)
    → IsComplete (bot_key_text bot) (text_of create.alert.alias) short_id room_id
    → truthy (strip (text_of create.alert.alert_id)) ≡ true
    → text_of create.action ≡ codes "Create"
    → handle_jira_status_webhook render bot cfg now create (
        upsert_pending_row
          (bot_key_text bot)
          (text_of create.alert.alias)
          short_id
          room_id
          sender_name
          t)
      ≡ some (t', messages)
    → text_of ack.action ≡ codes "Acknowledge"
    → text_of ack.alert.alert_id ≡ text_of create.alert.alert_id
    → ack.alert.username ≡ text u
    → Renders render cfg.ack_template
    → (ms : List Message) × (handle_jira_status_webhook render bot cfg later ack t' ≡ some (t', ms))
      × SaysOnce (strip room_id) ms
queued_alert_announced render bot cfg now later short_id room_id sender_name u create ack t t'
      messages complete has_id creates created acks same_id named total =
    let t1 =
      upsert_pending_row (bot_key_text bot) (text_of create.alert.alias) short_id room_id
        sender_name t in
    let linked_row : create_action bot create t1 ≡ some (t', messages) =
      rw ((text_eq_iff (text_of create.action) (codes "Create")).1 creates) at
        (unfolded render bot cfg now create t1 created) in
    let (r, found, room) =
      create_links_queued bot create short_id room_id sender_name t t' messages complete has_id
        linked_row in
    let stripped : strip r.room_id ≡ strip room_id = rw room (strip_idem room_id) in
    let not_create : text_eq (text_of ack.action) (codes "Create") ≡ false =
      rw acks (unfold text_eq in refl) in
    let (ms, said, once) =
      acknowledge_announced render bot cfg later ack t' (strip r.room_id)
        (status_context bot cfg (or_else (strip r.sender_name) (codes "Someone")) (strip u)) acks
        total in
    (
      ms,
      unfold handle_jira_status_webhook in
          rw not_create (
            status_action-routed render bot cfg later ack t' r u (rw same_id has_id)
              (rw same_id found) (rw stripped (ground arith)) named
            ∙ said),
      subst (λ room. SaysOnce room ms) stripped once,
    )
