-- ===== src/Secrets/Ensuring.antt =====
-- thaum/bot_webhook_state.py, ensure_bot_webhook_hmac_secret: workers that race for a bot's secret.
use thaum.Prelude.{
  ◌≡◌, refl, sym, ap, ◌∙◌, inl, inr, Bool, true, some, List, [], ◌∷◌, ◌++◌, Bool-cases,
  Option-cases, none-some,
}
use thaum.Text.{Text, text_eq_refl, truthy, strip}
use thaum.Table.{find_row}
use thaum.Table.Laws.{find_row-add_row}
use thaum.Secrets.{
  Cipher, IsCipher, BotWebhookHmac, of_bot, text_of_decrypted, plaintext_from_secret_field, Attempt,
  Ensured, new_row, ensure_rounds, ensure_bot_webhook_hmac_secret,
}

-- A row that is found stays the first one, whatever is inserted after it.
pub find_row-append :
    {A : Type 0} (p : A → Bool) (rows more : List A) (r : A)
    → find_row p rows ≡ some r
    → find_row p (rows ++ more) ≡ some r
unfolding find_row
find_row-append p [] more r e = absurd (none-some r e)
find_row-append p (x ∷ rows) more r e = elim (Bool-cases (p x)) [
  | inl yes_x ↦ rw yes_x (rw yes_x at e)
  | inr no_x ↦ rw no_x (find_row-append p rows more r (rw no_x at e))
]

pub ensure_rounds-found :
    (c : Cipher) (key_id bot_key : Text) (attempts : List Attempt) (rows : List BotWebhookHmac)
    (row : BotWebhookHmac)
    → find_row (of_bot bot_key) rows ≡ some row
    → ensure_rounds c key_id bot_key attempts rows ≡ (plaintext_from_secret_field c row, rows)
unfolding ensure_rounds
ensure_rounds-found c key_id bot_key [] rows row e = rw e refl
ensure_rounds-found c key_id bot_key (a ∷ attempts) rows row e = rw e refl

-- The secret that is returned is the one that the table holds for the bot.
abbrev pub IsStored : Cipher → Text → Ensured → Type 0
IsStored c bot_key ensured =
    (row : BotWebhookHmac) × (find_row (of_bot bot_key) ensured.1 ≡ some row)
    × (ensured.0 ≡ plaintext_from_secret_field c row)

ensure_rounds-IsStored :
    (c : Cipher) (key_id bot_key : Text) (a : Attempt) (attempts : List Attempt)
    (rows : List BotWebhookHmac)
    → IsCipher c
    → IsStored c bot_key (ensure_rounds c key_id bot_key (a ∷ attempts) rows)
unfolding ensure_rounds
ensure_rounds-IsStored c key_id bot_key a attempts rows v =
    elim (Option-cases (find_row (of_bot bot_key) rows)) [
      | inr (row, found) ↦ rw found (row, found, refl)
      | inl none_yet ↦ elim (Option-cases (find_row (of_bot bot_key) (rows ++ a.others))) [
        | inr (row, raced) ↦
            rw
              (
                none_yet,
                raced,
                ensure_rounds-found c key_id bot_key attempts (rows ++ a.others) row raced,
              )
              (row, raced, refl)
        | inl still_none ↦
            rw (none_yet, still_none)
              (
                new_row c key_id bot_key a,
                find_row-add_row (of_bot bot_key) (new_row c key_id bot_key a) (rows ++ a.others)
                    ∙ rw (still_none, text_eq_refl bot_key) refl,
                ap text_of_decrypted (sym (v.decrypts key_id a.token)),
              )
      ]
    ]

ensure_rounds-again :
    (c : Cipher) (key_id bot_key : Text) (attempts : List Attempt) (first : Ensured)
    (more : List BotWebhookHmac)
    → IsStored c bot_key first
    → ensure_rounds c key_id bot_key attempts (first.1 ++ more) ≡ (first.0, first.1 ++ more)
ensure_rounds-again c key_id bot_key attempts first more (row, found, same) =
    ensure_rounds-found c key_id bot_key attempts (first.1 ++ more) row
      (find_row-append (of_bot bot_key) first.1 more row found)
    ∙ ap (λ s. (s, first.1 ++ more)) (sym same)

-- For a bot key that is not blank, the secret that a worker gets is the one that the database holds
-- for the bot when it returns, so it always gets one that can be decrypted if the stored one can;
-- and every worker that asks later, whatever it draws itself, whatever key is the current one then
-- and whatever rows are inserted meanwhile, gets the same secret and changes nothing.
pub ensure_bot_webhook_hmac_secret-converges :
    (c : Cipher) (key_id key_id' bot_key : Text) (a₁ a₂ a₃ b₁ b₂ b₃ : Attempt)
    (rows more : List BotWebhookHmac)
    → IsCipher c
    → truthy (strip bot_key) ≡ true
    → IsStored c bot_key (ensure_bot_webhook_hmac_secret c key_id bot_key a₁ a₂ a₃ rows)
      × (ensure_bot_webhook_hmac_secret c key_id' bot_key b₁ b₂ b₃
            ((ensure_bot_webhook_hmac_secret c key_id bot_key a₁ a₂ a₃ rows).1 ++ more)
          ≡ (
            (ensure_bot_webhook_hmac_secret c key_id bot_key a₁ a₂ a₃ rows).0,
            (ensure_bot_webhook_hmac_secret c key_id bot_key a₁ a₂ a₃ rows).1 ++ more,
          ))
unfolding ensure_bot_webhook_hmac_secret
ensure_bot_webhook_hmac_secret-converges c key_id key_id' bot_key a₁ a₂ a₃ b₁ b₂ b₃ rows more v
      named =
    let stored = ensure_rounds-IsStored c key_id bot_key a₁ (a₂ ∷ a₃ ∷ []) rows v in
    rw named (
      stored,
      ensure_rounds-again c key_id' bot_key (b₁ ∷ b₂ ∷ b₃ ∷ [])
          (ensure_rounds c key_id bot_key (a₁ ∷ a₂ ∷ a₃ ∷ []) rows) more stored,
    )
