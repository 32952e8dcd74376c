-- ===== src/Secrets.antt =====
-- thaum/bot_webhook_state.py: the HMAC secrets of the bots' webhooks, encrypted in the database.
--
-- Parameters: the cipher of the encrypted column (gemstone_utils) and the random tokens. A row holds
-- the wire text that is stored. `none` is an exception that leaves the operation; nothing is stored
-- then. Other workers insert rows between a worker's look at the table and its own insertion.
pub mod Ensuring
pub mod Batch
pub mod Kept
pub mod Tests
use thaum.Prelude.{
  ℕ, ◌+◌, ◌/◌, ◌≡◌, Bool, Option, none, some, List, [], ◌∷◌, ◌++◌, map, ltb, if◌then◌else◌, take,
}
use mathlib.Core.Option
use thaum.Text.{Text, codes, text_eq, truthy, strip}
use thaum.Table.{find_row, update_row, add_row}
use thaum.Dict.{Dict}

-- What comes of a wire text: an exception, no value, or the text.
pub data Decrypted : Type 0 where
  failed nothing : Decrypted
  plain : Text → Decrypted

-- `parse` gives the id of the key that a wire text names, `none` where it raises ValueError.
pub record Cipher : Type 0 where
  pub encrypt : (key_id plaintext : Text) → Text
  pub parse : Text → Option Text
  pub decrypt : Text → Decrypted

-- What is written is read back, and names its key.
pub record IsCipher (c : Cipher) : Type 0 where
  pub decrypts :
      (key_id plaintext : Text) → c.decrypt (c.encrypt key_id plaintext) ≡ plain plaintext
  pub names : (key_id plaintext : Text) → c.parse (c.encrypt key_id plaintext) ≡ some key_id

pub record BotWebhookHmac : Type 0 where
  pub bot_key : Text
  pub secret_enc : Text
  pub updated_at : ℕ

unfoldable pub of_bot : Text → BotWebhookHmac → Bool
unfolding text_eq
of_bot key row = text_eq row.bot_key key

abbrev pub text_of_decrypted : Decrypted → Option Text
text_of_decrypted failed = none
text_of_decrypted nothing = some (codes "None")
text_of_decrypted (plain t) = some t

-- The wire text of an encrypted column, read.
unfoldable pub plaintext_from_secret_field : Cipher → BotWebhookHmac → Option Text
plaintext_from_secret_field c row = text_of_decrypted (c.decrypt row.secret_enc)

-- A secret that is assigned under the current key.
unfoldable pub assign_secret : Cipher → Text → ℕ → Text → BotWebhookHmac → BotWebhookHmac
assign_secret c key_id now plaintext row = record row {
  secret_enc = c.encrypt key_id plaintext;
  updated_at = now;
}

-- What one round of the loop meets: the token that is drawn, the clock, and the rows that other
-- workers insert before this one does.
pub record Attempt : Type 0 where
  pub token : Text
  pub now : ℕ
  pub others : List BotWebhookHmac

abbrev pub Ensured : Type 0
Ensured = Option Text × List BotWebhookHmac

abbrev pub new_row : Cipher → Text → Text → Attempt → BotWebhookHmac
new_row c key_id bot_key a = record {
  bot_key = bot_key;
  secret_enc = c.encrypt key_id a.token;
  updated_at = a.now;
}

-- The insertion violates the primary key if the bot has a row by then.
unfoldable pub insert_or_race :
    Cipher → Text → Text → Attempt → List BotWebhookHmac → Ensured → Option BotWebhookHmac → Ensured
unfolding add_row
insert_or_race c key_id bot_key a rows again none =
    (some a.token, add_row (new_row c key_id bot_key a) rows)
insert_or_race c key_id bot_key a rows again (some row) = again

unfoldable pub read_or : Cipher → List BotWebhookHmac → Ensured → Option BotWebhookHmac → Ensured
unfolding plaintext_from_secret_field
read_or c rows otherwise none = otherwise
read_or c rows otherwise (some row) = (plaintext_from_secret_field c row, rows)

-- The rounds that are left, the last one first.
unfoldable pub ensure_rounds : Cipher → Text → Text → List Attempt → List BotWebhookHmac → Ensured
unfolding read_or insert_or_race of_bot find_row
ensure_rounds c key_id bot_key [] rows =
    read_or c rows (none, rows) (find_row (of_bot bot_key) rows)
ensure_rounds c key_id bot_key (a ∷ attempts) rows =
    let met = rows ++ a.others in
    let again = ensure_rounds c key_id bot_key attempts met in
    read_or c rows (insert_or_race c key_id bot_key a met again (find_row (of_bot bot_key) met))
      (find_row (of_bot bot_key) rows)

-- `for attempt in range(3)`: the source makes three rounds.
unfoldable pub ensure_bot_webhook_hmac_secret :
    Cipher → Text → Text → Attempt → Attempt → Attempt → List BotWebhookHmac → Ensured
unfolding ensure_rounds strip
ensure_bot_webhook_hmac_secret c key_id bot_key a₁ a₂ a₃ rows =
    if truthy (strip bot_key)
    then ensure_rounds c key_id bot_key (a₁ ∷ a₂ ∷ a₃ ∷ []) rows
    else (none, rows)

-- The number of random bytes that the token has.
unfoldable pub token_bytes : ℕ → ℕ
token_bytes min_length = if ltb 16 ((min_length + 1) / 2) then (min_length + 1) / 2 else 16

set_or_add :
    Cipher
    → Text
    → ℕ
    → Text
    → Text
    → List BotWebhookHmac
    → Option BotWebhookHmac
    → List BotWebhookHmac
unfolding add_row update_row assign_secret of_bot
set_or_add c key_id now bot_key p rows none =
    add_row (record { bot_key = bot_key; secret_enc = c.encrypt key_id p; updated_at = now }) rows
set_or_add c key_id now bot_key p rows (some row) =
    update_row (of_bot bot_key) (assign_secret c key_id now p) rows

unfoldable pub re_encrypt_bot_webhook_hmac_secrets :
    Cipher → Text → ℕ → Dict Text → List BotWebhookHmac → List BotWebhookHmac
unfolding set_or_add find_row of_bot
re_encrypt_bot_webhook_hmac_secrets c key_id now [] rows = rows
re_encrypt_bot_webhook_hmac_secrets c key_id now ((bot_key, p) ∷ ps) rows =
    re_encrypt_bot_webhook_hmac_secrets c key_id now ps
      (set_or_add c key_id now bot_key p rows (find_row (of_bot bot_key) rows))

-- Whether the batch takes a row, and with which text: `some none` skips it, `none` is an exception.
unfoldable pub decrypted_stale : Decrypted → Option (Option Text)
decrypted_stale failed = none
decrypted_stale nothing = some none
decrypted_stale (plain p) = some (some p)

unfoldable pub stale_by_key : Cipher → Text → Text → Option Text → Option (Option Text)
unfolding decrypted_stale text_eq
stale_by_key c active wire none = some none
stale_by_key c active wire (some key_id) =
    if text_eq key_id active then some none else decrypted_stale (c.decrypt wire)

unfoldable pub stale_plaintext : Cipher → Text → BotWebhookHmac → Option (Option Text)
unfolding stale_by_key
stale_plaintext c active row =
    if truthy row.secret_enc
    then stale_by_key c active row.secret_enc (c.parse row.secret_enc)
    else some none

unfoldable pub keep_pending :
    Text → Option (Option Text) → Option (List (Text × Text)) → Option (List (Text × Text))
keep_pending bot_key none rest = none
keep_pending bot_key (some none) rest = rest
keep_pending bot_key (some (some p)) none = none
keep_pending bot_key (some (some p)) (some rest) = some ((bot_key, p) ∷ rest)

unfoldable pub pending : Cipher → Text → List BotWebhookHmac → Option (List (Text × Text))
unfolding keep_pending stale_plaintext
pending c active [] = some []
pending c active (row ∷ rows) =
    keep_pending row.bot_key (stale_plaintext c active row) (pending c active rows)

-- The rows that are updated, counted; the current key is that of `EncryptedString`.
unfoldable pub update_if_there :
    Cipher
    → Text
    → ℕ
    → Text
    → Text
    → ℕ × List BotWebhookHmac
    → Option BotWebhookHmac
    → ℕ × List BotWebhookHmac
unfolding update_row assign_secret of_bot
update_if_there c current now bot_key p (n, rows) none = (n, rows)
update_if_there c current now bot_key p (n, rows) (some row) =
    (n + 1, update_row (of_bot bot_key) (assign_secret c current now p) rows)

unfoldable pub update_pending :
    Cipher → Text → ℕ → List (Text × Text) → ℕ × List BotWebhookHmac → ℕ × List BotWebhookHmac
unfolding update_if_there find_row of_bot
update_pending c current now [] s = s
update_pending c current now ((bot_key, p) ∷ ps) s =
    update_pending c current now ps
      (update_if_there c current now bot_key p s (find_row (of_bot bot_key) s.1))

-- The database chooses which rows `LIMIT` takes: those that it lists first.
unfoldable pub re_encrypt_stale_bot_webhook_hmac_batch :
    Cipher
    → (current active : Text) → ℕ
    → ℕ
    → List BotWebhookHmac
    → Option (ℕ × List BotWebhookHmac)
unfolding pending update_pending
re_encrypt_stale_bot_webhook_hmac_batch c current active now batch_limit rows =
    Option.map (λ ps. update_pending c current now ps (0, rows))
      (pending c active (take batch_limit rows))
