-- ===== src/Secrets/Tests.antt =====
-- Tests of the bots' secrets, with a cipher that writes the key's id before the text.
use thaum.Prelude.{◌≡◌, refl, ap, true, Option, none, some, List, [], ◌∷◌, ◌++◌, length, take, drop}
use thaum.Text.{Text, codes, text_eq, truthy, is_space, lstrip, rstrip, strip}
use thaum.Table.{find_row, update_row}
use thaum.Secrets.{
  Decrypted, failed, plain, Cipher, IsCipher, BotWebhookHmac, of_bot, plaintext_from_secret_field,
  assign_secret, Attempt, Ensured, insert_or_race, read_or, ensure_rounds,
  ensure_bot_webhook_hmac_secret, decrypted_stale, stale_by_key, stale_plaintext, keep_pending,
  pending, update_if_there, update_pending, re_encrypt_stale_bot_webhook_hmac_batch,
}
use thaum.Secrets.Ensuring.{IsStored, ensure_bot_webhook_hmac_secret-converges}
use thaum.Secrets.Batch.{IsUnique}
use thaum.Secrets.Kept.{secret_of, re_encrypt_stale_again}

unfoldable pub open_wire : Text → Decrypted
open_wire [] = failed
open_wire (n ∷ rest) = plain (drop n rest)

unfoldable pub key_of_wire : Text → Option Text
key_of_wire [] = none
key_of_wire (n ∷ rest) = some (take n rest)

unfoldable pub plain_cipher : Cipher
unfolding open_wire key_of_wire
plain_cipher = record {
  encrypt = λ key_id p. length key_id ∷ (key_id ++ p);
  parse = key_of_wire;
  decrypt = open_wire;
}

take-key : (k p : Text) → take (length k) (k ++ p) ≡ k
take-key [] p = refl
take-key (c ∷ k) p = ap (λ rest. c ∷ rest) (take-key k p)

drop-key : (k p : Text) → drop (length k) (k ++ p) ≡ p
drop-key [] p = refl
drop-key (c ∷ k) p = drop-key k p

pub plain_cipher-IsCipher : IsCipher plain_cipher
unfolding plain_cipher open_wire key_of_wire
plain_cipher-IsCipher = record {
  decrypts = λ k p. ap plain (drop-key k p);
  names = λ k p. ap some (take-key k p);
}

abbrev pub old_row : BotWebhookHmac
old_row = record { bot_key = codes "ops"; secret_enc = 1 ∷ codes "Asecret"; updated_at = 5 }

abbrev pub new_row_b : BotWebhookHmac
new_row_b = record { bot_key = codes "db"; secret_enc = 1 ∷ codes "Bhidden"; updated_at = 6 }

abbrev pub late_row : BotWebhookHmac
late_row = record { bot_key = codes "net"; secret_enc = 1 ∷ codes "Alate"; updated_at = 7 }

abbrev pub three_rows : List BotWebhookHmac
three_rows = old_row ∷ new_row_b ∷ late_row ∷ []

pub three_rows-IsUnique : IsUnique three_rows
unfolding text_eq
three_rows-IsUnique = ((refl, (refl, tt)), ((refl, tt), (tt, tt)))

abbrev pub drawn : Text → List BotWebhookHmac → Attempt
drawn token others = record { token = token; now = 9; others = others }

-- The worker that loses the race returns the row of the other.
raced :
    ensure_bot_webhook_hmac_secret plain_cipher
      (codes "A")
      (codes "ops")
      (drawn (codes "mine") (old_row ∷ []))
      (drawn (codes "again") [])
      (drawn (codes "third") [])
      []
    ≡ (some (codes "secret"), old_row ∷ [])
unfolding ensure_bot_webhook_hmac_secret ensure_rounds read_or insert_or_race find_row of_bot strip
    lstrip rstrip is_space text_eq plain_cipher plaintext_from_secret_field open_wire
raced = refl

pub is_named : truthy (strip (codes "ops")) ≡ true
unfolding strip lstrip rstrip is_space
is_named = refl

abbrev first_worker : Ensured
first_worker =
    ensure_bot_webhook_hmac_secret plain_cipher (codes "A") (codes "ops")
      (drawn (codes "mine") (old_row ∷ [])) (drawn (codes "again") []) (drawn (codes "third") []) []

ensure_bot_webhook_hmac_secret-converges_example :
    IsStored plain_cipher (codes "ops") first_worker
    × (ensure_bot_webhook_hmac_secret plain_cipher
          (codes "B")
          (codes "ops")
          (drawn (codes "x") [])
          (drawn (codes "y") [])
          (drawn (codes "z") [])
          (first_worker.1 ++ late_row ∷ [])
        ≡ (first_worker.0, first_worker.1 ++ late_row ∷ []))
ensure_bot_webhook_hmac_secret-converges_example =
    ensure_bot_webhook_hmac_secret-converges plain_cipher (codes "A") (codes "B") (codes "ops")
      (drawn (codes "mine") (old_row ∷ [])) (drawn (codes "again") []) (drawn (codes "third") [])
      (drawn (codes "x") []) (drawn (codes "y") []) (drawn (codes "z") []) [] (late_row ∷ [])
      plain_cipher-IsCipher is_named

abbrev after_batch : List BotWebhookHmac
after_batch =
    record { bot_key = codes "ops"; secret_enc = 1 ∷ codes "Bsecret"; updated_at = 20 }
    ∷ new_row_b
    ∷ late_row
    ∷ []

batch_of_two :
    re_encrypt_stale_bot_webhook_hmac_batch plain_cipher (codes "B") (codes "B") 20 2 three_rows
    ≡ some (1, after_batch)
unfolding re_encrypt_stale_bot_webhook_hmac_batch pending keep_pending stale_plaintext stale_by_key
    decrypted_stale update_pending update_if_there update_row assign_secret find_row of_bot text_eq
    plain_cipher key_of_wire open_wire
batch_of_two = refl

-- The row `net` is stale and past the limit.
re_encrypt_stale_again_example :
    (secret_of plain_cipher (codes "net") after_batch
      ≡ secret_of plain_cipher (codes "net") three_rows)
    × (drop 2 after_batch ≡ drop 2 three_rows)
    × (re_encrypt_stale_bot_webhook_hmac_batch plain_cipher (codes "B") (codes "B") 30 2 after_batch
        ≡ some (0, after_batch))
re_encrypt_stale_again_example =
    re_encrypt_stale_again plain_cipher (codes "B") (codes "net") 20 30 2 1 three_rows after_batch
      plain_cipher-IsCipher three_rows-IsUnique batch_of_two
