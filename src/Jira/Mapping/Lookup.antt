-- ===== src/Jira/Mapping/Lookup.antt =====
-- What the lookups return after a row was queued for an alert, and after Jira linked it.
use mathlib.Core.Option
use thaum.Prelude.{
  ◌≡◌, refl, sym, ap, ◌∙◌, Bool, true, false, not, ◌&&◌, Option, none, some, List, [], arith,
}
use thaum.Text.{Text, codes, text_eq, text_eq_iff, text_eq_refl, truthy, or_else, strip}
use thaum.Table.{find_row}
use thaum.Table.Laws.{
  find_row_sound, or_new, find_row-add_row, find_row-update_row, find_row-update_row_other,
  find_row-update_row_only, find_row-none_of,
}
use thaum.Jira.Mapping.{
  AlertRow, someone, keyed, upsert_row, upsert_pending_row, by_jira_id, mapping_for_jira_alert_id,
  mapping_for_alias, taken_elsewhere, link_row, apply_create_webhook,
}
use thaum.Jira.Mapping.Keys.{keyed_iff, commit_unless-some}

-- All of the arguments that a queued row needs are there.
abbrev pub IsComplete : (bot_key alias short_id room_id : Text) → Type 0
IsComplete bot_key alias short_id room_id =
    (truthy (strip bot_key)
      && (truthy (strip alias) && (truthy (strip short_id) && truthy (strip room_id))))
    ≡ true

-- The Jira alert id of a row that may be missing.
abbrev pub linked_id : Option AlertRow → Option Text
linked_id none = none
linked_id (some r) = r.jira_alert_id

module _ (bk al sid rid snd : Text) where
  pub find_row-upsert_row :
      (o : Option AlertRow) (t : List AlertRow)
      → find_row (keyed bk al) t ≡ o
      → find_row (keyed bk al) (upsert_row bk al sid rid snd o t)
        ≡ some (record {
          bot_key = bk;
          alias = al;
          short_id = sid;
          room_id = rid;
          jira_alert_id = linked_id o;
          sender_name = snd;
        })
  find_row-upsert_row none t e =
      unfold upsert_row in
      rw (find_row-add_row (keyed bk al) _ t, e, text_eq_refl bk, text_eq_refl al)
  find_row-upsert_row (some row) t e =
      let (b, a) = (keyed_iff bk al row).0 (find_row_sound (keyed bk al) t row e) in
      unfold upsert_row in find_row-update_row (keyed bk al) _ t (λ r h. h) ∙ rw e (ground arith)

-- The lookups and the writes, where their guards let them pass.
pub mapping_for_alias-eq :
    (alias bot_key : Text) (t : List AlertRow)
    → (truthy (strip alias) && truthy (strip bot_key)) ≡ true
    → mapping_for_alias alias bot_key t ≡ find_row (keyed (strip bot_key) (strip alias)) t
mapping_for_alias-eq alias bot_key t h = unfold mapping_for_alias in rw h

pub upsert_pending_row-eq :
    (bot_key alias short_id room_id sender_name : Text) (t : List AlertRow)
    → IsComplete bot_key alias short_id room_id
    → upsert_pending_row bot_key alias short_id room_id sender_name t
      ≡ upsert_row
          (strip bot_key)
          (strip alias)
          (strip short_id)
          (strip room_id)
          (or_else (strip sender_name) someone)
          (find_row (keyed (strip bot_key) (strip alias)) t)
          t
upsert_pending_row-eq bot_key alias short_id room_id sender_name t h =
    unfold upsert_pending_row in rw h

pub IsComplete-key :
    (bot_key alias short_id room_id : Text)
    → IsComplete bot_key alias short_id room_id
    → (truthy (strip alias) && truthy (strip bot_key)) ≡ true
IsComplete-key bot_key alias short_id room_id h = ground arith

or_new-miss {ℓ} :
    {A : Type ℓ} (p : A → Bool) (r : A) (o : Option A) → p r ≡ false → or_new p r o ≡ o
or_new-miss p r none h = rw h
or_new-miss p r (some x) h = refl

module _ (bk al sid rid snd : Text) where
  find_row-upsert_row_other :
      (bk' al' : Text) (o : Option AlertRow) (t : List AlertRow)
      → (text_eq bk' bk && text_eq al' al) ≡ false
      → find_row (keyed bk' al') (upsert_row bk al sid rid snd o t) ≡ find_row (keyed bk' al') t
  find_row-upsert_row_other bk' al' none t apart =
      unfold upsert_row in
      find_row-add_row (keyed bk' al') _ t
      ∙ or_new-miss (keyed bk' al') _ (find_row (keyed bk' al') t) (
          ground
            (arith, text_eq_iff bk bk', text_eq_iff al al', text_eq_iff bk' bk, text_eq_iff al' al))
  find_row-upsert_row_other bk' al' (some row) t apart =
      unfold upsert_row in
      find_row-update_row_other (keyed bk al) (keyed bk' al') _ t (λ r h.
        let miss : keyed bk' al' r ≡ false =
          ground (
            arith,
            keyed_iff bk al r,
            keyed_iff bk' al' r,
            text_eq_iff bk' bk,
            text_eq_iff al' al,
          ) in
        (miss, miss))

-- A queued row is found under its alias with the room, the sender and the short id that were given,
-- and with the Jira alert id that the row had before.
pub mapping_for_alias-upsert_pending_row :
    (bot_key alias short_id room_id sender_name : Text) (t : List AlertRow)
    → IsComplete bot_key alias short_id room_id
    → mapping_for_alias alias bot_key
        (upsert_pending_row bot_key alias short_id room_id sender_name t)
      ≡ some (record {
        bot_key = strip bot_key;
        alias = strip alias;
        short_id = strip short_id;
        room_id = strip room_id;
        jira_alert_id = linked_id (mapping_for_alias alias bot_key t);
        sender_name = or_else (strip sender_name) (codes "Someone");
      })
mapping_for_alias-upsert_pending_row bot_key alias short_id room_id sender_name t complete =
    let key = IsComplete-key bot_key alias short_id room_id complete in
    rw
      (
        mapping_for_alias-eq alias bot_key _ key,
        mapping_for_alias-eq alias bot_key t key,
        upsert_pending_row-eq bot_key alias short_id room_id sender_name t complete,
      )
      (find_row-upsert_row (strip bot_key) (strip alias) (strip short_id) (strip room_id)
        (or_else (strip sender_name) someone) _ t refl)

-- Queueing a row leaves what is found under another alias or for another bot as it was.
pub mapping_for_alias-upsert_pending_row_other :
    (bot_key alias short_id room_id sender_name other_alias other_bot : Text) (t : List AlertRow)
    → (text_eq (strip other_bot) (strip bot_key) && text_eq (strip other_alias) (strip alias))
      ≡ false
    → mapping_for_alias other_alias other_bot
        (upsert_pending_row bot_key alias short_id room_id sender_name t)
      ≡ mapping_for_alias other_alias other_bot t
mapping_for_alias-upsert_pending_row_other bot_key alias short_id room_id sender_name other_alias
      other_bot t apart =
    unfold mapping_for_alias upsert_pending_row in
    ground (
      arith,
      find_row-upsert_row_other (strip bot_key) (strip alias) (strip short_id) (strip room_id)
          (or_else (strip sender_name) someone) (strip other_bot) (strip other_alias)
          (find_row (keyed (strip bot_key) (strip alias)) t) t apart,
    )

mapping_for_alias-some :
    (alias bot_key : Text) (t : List AlertRow) (row : AlertRow)
    → mapping_for_alias alias bot_key t ≡ some row
    → ((truthy (strip alias) && truthy (strip bot_key)) ≡ true)
      × (find_row (keyed (strip bot_key) (strip alias)) t ≡ some row)
unfolding mapping_for_alias
mapping_for_alias-some alias bot_key t row h = ground arith

module _ (bk al jid : Text) where
  -- After a committed link both the id and the key find the linked row.
  find_row-link_row :
      (sid room sender : Text) (row : AlertRow) (t t' : List AlertRow)
      → find_row (keyed bk al) t ≡ some row
      → link_row bk al jid sid room sender (some row) t ≡ some t'
      → (find_row (by_jira_id jid bk) t' ≡ some (record row { jira_alert_id = some jid }))
        × (find_row (keyed bk al) t' ≡ some (record row { jira_alert_id = some jid }))
  unfolding link_row
  find_row-link_row sid room sender row t t' e done =
      let (free, same) = commit_unless-some _ _ t' done in
      let set = λ (r : AlertRow). record r { jira_alert_id = some jid } in
      let mine : find_row (λ r. by_jira_id jid bk r && not (keyed bk al r)) t ≡ none =
        find_row-none_of (taken_elsewhere bk al jid) (taken_elsewhere bk al jid)
          (λ r. by_jira_id jid bk r && not (keyed bk al r)) t (λ r p q. ground arith) free free in
      rw (← same) (
        find_row-update_row_only (keyed bk al) (by_jira_id jid bk) set t
              (λ r h. ground (arith, text_eq_refl jid)) mine
            ∙ ap (Option.map set) e,
        find_row-update_row (keyed bk al) set t (λ r h. h) ∙ ap (Option.map set) e,
      )

apply_create_webhook-eq :
    (jira_alert_id bot_key alias short_fb room_fb sender_fb : Text) (t : List AlertRow)
    (row : AlertRow)
    → truthy (strip jira_alert_id) ≡ true
    → (truthy (strip alias) && truthy (strip bot_key)) ≡ true
    → find_row (keyed (strip bot_key) (strip alias)) t ≡ some row
    → apply_create_webhook jira_alert_id bot_key alias short_fb room_fb sender_fb t
      ≡ link_row (strip bot_key) (strip alias) (strip jira_alert_id) [] [] [] (some row) t
unfolding apply_create_webhook
apply_create_webhook-eq jira_alert_id bot_key alias short_fb room_fb sender_fb t row given key e =
    ground arith

-- Once a Create webhook for a queued alias has committed, the Jira alert id leads to the queued
-- row, which has the id and is otherwise as it was, and so does the alias.
pub mapping_for_jira_alert_id-apply_create_webhook :
    (jira_alert_id bot_key alias short_fb room_fb sender_fb : Text) (t t' : List AlertRow)
    (row : AlertRow)
    → truthy (strip jira_alert_id) ≡ true
    → mapping_for_alias alias bot_key t ≡ some row
    → apply_create_webhook jira_alert_id bot_key alias short_fb room_fb sender_fb t ≡ some t'
    → (mapping_for_jira_alert_id jira_alert_id bot_key t'
        ≡ some (record row { jira_alert_id = some (strip jira_alert_id) }))
      × (mapping_for_alias alias bot_key t'
          ≡ some (record row { jira_alert_id = some (strip jira_alert_id) }))
mapping_for_jira_alert_id-apply_create_webhook jira_alert_id bot_key alias short_fb room_fb
      sender_fb t t' row given queued done =
    let (key, e) = mapping_for_alias-some alias bot_key t row queued in
    let (by_id, by_key) =
      find_row-link_row (strip bot_key) (strip alias) (strip jira_alert_id) [] [] [] row t t' e (
        sym (
          apply_create_webhook-eq jira_alert_id bot_key alias short_fb room_fb sender_fb t row given
            key e)
        ∙ done) in
    let both : (truthy (strip jira_alert_id) && truthy (strip bot_key)) ≡ true = ground arith in
    (
      unfold mapping_for_jira_alert_id in (rw both by_id),
      mapping_for_alias-eq alias bot_key t' key ∙ by_key,
    )
