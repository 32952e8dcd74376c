-- ===== src/Vault/Running.antt =====
-- thaum/database_crypto.py: what a process does with the keys, and the leader's tasks on them.
--
-- An exception leaves the state as it is then.
pub mod Safety
pub mod Tasks
use thaum.Prelude.{
  ℕ, ◌-◌, ◌*◌, Bool, true, false, not, Option, none, some, List, ltb, ◌==◌, if◌then◌else◌,
}
use thaum.Text.{Text}
use thaum.Secrets.{nothing, Cipher, BotWebhookHmac, re_encrypt_stale_bot_webhook_hmac_batch}
use thaum.Vault.{
  Error, conflict, no_canary, no_active, wrong_passphrase, bad_key, no_key, undecryptable, Result,
  ok, raised, ◌>>=◌, GemstoneKeyKdf, GemstoneKeyRecord, Vault, KeyLibrary,
  resolved_vault_passphrase, single_kek_slot, active_dek_row, or_raise, ensure_that, Fresh,
}

-- `current` is the key under which EncryptedString writes.
pub record Process : Type 0 where
  pub crypto_ready : Bool
  pub current : Option Text

pub record Server : Type 0 where
  pub vault : Vault
  pub process : Process
  pub secrets : List BotWebhookHmac

pub record CryptoConfig : Type 0 where
  pub database_vault_passphrase : Option Text
  pub data_key_rotate_days : ℕ

abbrev pub day : ℕ
day = 86400000000

abbrev pub Outcome : Type 0
Outcome = Option Error × Server

unfoldable pub verified_slot : KeyLibrary → Text → GemstoneKeyKdf → Text → Result (Unit {0})
verified_slot lib passphrase slot canary =
    ensure_that (lib.verifies passphrase slot.kdf_params canary) wrong_passphrase

-- The id of the active key, which has been loaded.
unfoldable pub load_active : KeyLibrary → Text → Vault → Result Text
unfolding verified_slot single_kek_slot active_dek_row
load_active lib passphrase vault = single_kek_slot vault.kek_slots >>= λ slot.
    or_raise no_canary slot.canary_wrapped >>= λ canary.
    verified_slot lib passphrase slot canary >>= λ _. active_dek_row vault.deks >>= λ active.
    or_raise no_active active >>= λ row.
    ensure_that (lib.loads (lib.derive_kek passphrase slot.kdf_params) row.key_id row.wrapped)
      bad_key
    >>= λ _. ok row.key_id

unfoldable pub wired : Server → Result Text → Outcome
wired s (ok key_id) =
    (none, record s { process = record { crypto_ready = true; current = some key_id } })
wired s (raised e) = (some e, s)

unfoldable pub wire_with : KeyLibrary → Server → Option Text → Outcome
unfolding wired load_active
wire_with lib s none = (none, record s { process = record s.process { crypto_ready = false } })
wire_with lib s (some p) =
    if s.process.crypto_ready then (none, s) else wired s (load_active lib p s.vault)

unfoldable pub wire_database_crypto : KeyLibrary → CryptoConfig → Server → Outcome
unfolding wire_with resolved_vault_passphrase
wire_database_crypto lib cfg s =
    wire_with lib s (resolved_vault_passphrase cfg.database_vault_passphrase)

-- `if not _crypto_ready: apply_database_crypto(...)`, then the rest if it is ready.
unfoldable pub continue_ready : (Server → Outcome) → Outcome → Outcome
continue_ready rest (some e, s) = (some e, s)
continue_ready rest (none, s) = if s.process.crypto_ready then rest s else (none, s)

unfoldable pub when_ready : KeyLibrary → CryptoConfig → (Server → Outcome) → Server → Outcome
unfolding continue_ready wire_database_crypto
when_ready lib cfg rest s =
    if s.process.crypto_ready then rest s else continue_ready rest (wire_database_crypto lib cfg s)

-- `none` where the rotation is left: no active key, its time has not come, or no canary.
unfoldable pub due_slot :
    KeyLibrary
    → Text
    → List GemstoneKeyKdf
    → GemstoneKeyRecord
    → Result (Option (GemstoneKeyKdf × GemstoneKeyRecord))
unfolding single_kek_slot verified_slot
due_slot lib passphrase slots active = single_kek_slot slots >>= λ slot. elim slot.canary_wrapped [
  | none ↦ ok none
  | some canary ↦ verified_slot lib passphrase slot canary >>= λ _. ok (some (slot, active))
]

unfoldable pub due_active :
    KeyLibrary
    → Text
    → ℕ
    → ℕ
    → Vault
    → Option GemstoneKeyRecord
    → Result (Option (GemstoneKeyKdf × GemstoneKeyRecord))
unfolding due_slot
due_active lib passphrase days now vault none = ok none
due_active lib passphrase days now vault (some active) =
    if ltb (now - active.created_at) (days * day)
    then ok none
    else due_slot lib passphrase vault.kek_slots active

unfoldable pub due_rotation :
    KeyLibrary → Text → ℕ → ℕ → Vault → Result (Option (GemstoneKeyKdf × GemstoneKeyRecord))
unfolding active_dek_row due_active
due_rotation lib passphrase days now vault =
    active_dek_row vault.deks >>= λ active. due_active lib passphrase days now vault active

unfoldable pub new_dek :
    KeyLibrary → Text → Fresh → GemstoneKeyKdf → GemstoneKeyRecord → GemstoneKeyRecord
new_dek lib passphrase fresh slot active = record {
  key_id = fresh.dek_key_id;
  wrapped =
      lib.wire_wrap slot.key_id (lib.derive_kek passphrase slot.kdf_params) fresh.dek
        active.data_alg;
  data_alg = active.data_alg;
  is_active = true;
  created_at = fresh.now;
}

-- The new row is stored before its context is loaded.
unfoldable pub stored :
    KeyLibrary
    → Text
    → GemstoneKeyKdf
    → GemstoneKeyRecord
    → Server
    → Option (List GemstoneKeyRecord)
    → Outcome
stored lib passphrase slot row s none = (some conflict, s)
stored lib passphrase slot row s (some deks) =
    let s' = record s { vault = record { kek_slots = s.vault.kek_slots; deks = deks } } in
    if lib.loads (lib.derive_kek passphrase slot.kdf_params) row.key_id row.wrapped
    then (
      none,
      record s' {
        process = record { crypto_ready = s.process.crypto_ready; current = some row.key_id };
      },
    )
    else (some bad_key, s')

unfoldable pub rotated :
    KeyLibrary
    → Text
    → Fresh
    → Server
    → Result (Option (GemstoneKeyKdf × GemstoneKeyRecord))
    → Outcome
unfolding new_dek stored
rotated lib passphrase fresh s (raised e) = (some e, s)
rotated lib passphrase fresh s (ok none) = (none, s)
rotated lib passphrase fresh s (ok (some (slot, active))) =
    stored lib passphrase slot (new_dek lib passphrase fresh slot active) s
      (lib.put_keyrecord (new_dek lib passphrase fresh slot active) s.vault.deks)

unfoldable pub rotate_with : KeyLibrary → CryptoConfig → Fresh → Server → Option Text → Outcome
unfolding when_ready rotated due_rotation
rotate_with lib cfg fresh s none = (none, s)
rotate_with lib cfg fresh s (some p) =
    when_ready lib cfg
      (λ s'.
        rotated lib p fresh s' (due_rotation lib p cfg.data_key_rotate_days fresh.now s'.vault))
      s

unfoldable pub rotate_data_encryption_key_if_due :
    KeyLibrary → CryptoConfig → Fresh → Server → Outcome
unfolding rotate_with resolved_vault_passphrase
rotate_data_encryption_key_if_due lib cfg fresh s =
    if cfg.data_key_rotate_days == 0
    then (none, s)
    else rotate_with lib cfg fresh s (resolved_vault_passphrase cfg.database_vault_passphrase)

abbrev pub catchup_batch : ℕ
catchup_batch = 50

unfoldable pub caught_up : Server → Option (ℕ × List BotWebhookHmac) → Outcome
caught_up s none = (some undecryptable, s)
caught_up s (some (n, rows)) = (none, record s { secrets = rows })

-- Without a current key nothing can be written.
unfoldable pub catch_up_under : Cipher → ℕ → Server → Text → Option Text → Outcome
unfolding caught_up re_encrypt_stale_bot_webhook_hmac_batch
catch_up_under c now s active none = (some no_key, s)
catch_up_under c now s active (some current) =
    caught_up s
      (re_encrypt_stale_bot_webhook_hmac_batch c current active now catchup_batch s.secrets)

unfoldable pub catch_up_active : Cipher → ℕ → Server → Result (Option GemstoneKeyRecord) → Outcome
unfolding catch_up_under
catch_up_active c now s (raised e) = (some e, s)
catch_up_active c now s (ok none) = (none, s)
catch_up_active c now s (ok (some row)) = catch_up_under c now s row.key_id s.process.current

unfoldable pub catch_up_with : Cipher → ℕ → Option Text → Server → Outcome
unfolding catch_up_active active_dek_row
catch_up_with c now none s = (none, s)
catch_up_with c now (some p) s = catch_up_active c now s (active_dek_row s.vault.deks)

unfoldable pub progressive_reencrypt_encrypted_strings_if_needed :
    KeyLibrary → Cipher → CryptoConfig → ℕ → Server → Outcome
unfolding when_ready catch_up_with resolved_vault_passphrase
progressive_reencrypt_encrypted_strings_if_needed lib c cfg now s =
    when_ready lib cfg
      (catch_up_with c now (resolved_vault_passphrase cfg.database_vault_passphrase)) s
