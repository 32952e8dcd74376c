-- ===== src/Vault/Tests.antt =====
-- Tests of the database keys, with a key library that keeps one active row.
use thaum.Prelude.{◌≡◌, refl, true, false, none, some, List, [], ◌∷◌, ◌++◌}
use thaum.Table.{rows_where}
use thaum.Vault.{
  GemstoneKeyKdf, GemstoneKeyRecord, KeyLibrary, resolved_vault_passphrase, single_kek_slot,
  at_most_one, active_dek_row, Fresh,
}
use thaum.Text.{codes, is_space, lstrip, rstrip, strip}
use thaum.Secrets.Tests.{plain_cipher, three_rows}
use thaum.Vault.Running.{
  Server, CryptoConfig, verified_slot, load_active, wired, wire_with, wire_database_crypto,
  when_ready, due_slot, due_active, due_rotation, new_dek, stored, rotated, rotate_with,
  rotate_data_encryption_key_if_due, progressive_reencrypt_encrypted_strings_if_needed,
}
use thaum.Vault.Running.Tasks.{wire, dek_rotate, encrypted_field_catchup, Tasks, start, next}

deactivate : List GemstoneKeyRecord → List GemstoneKeyRecord
deactivate [] = []
deactivate (row ∷ deks) = record row { is_active = false } ∷ deactivate deks

key_library : KeyLibrary
unfolding deactivate
key_library = record {
  derive_kek = λ passphrase params. passphrase ++ params;
  verifies = λ passphrase params canary. true;
  make_canary = λ kek wrap_key_id. kek;
  wire_wrap = λ wrap_key_id kek dek alg. wrap_key_id ++ dek;
  loads = λ kek key_id wrapped. true;
  set_kdf_params = λ wrap_key_id params slots.
      some (record { key_id = wrap_key_id; kdf_params = params; canary_wrapped = none } ∷ slots);
  set_kek_canary = λ wrap_key_id canary slots. some slots;
  put_keyrecord = λ row deks. some (row ∷ deactivate deks);
}

abbrev first_dek : GemstoneKeyRecord
first_dek = record {
  key_id = codes "A";
  wrapped = codes "wA";
  data_alg = codes "gcm";
  is_active = true;
  created_at = 0;
}

abbrev slot : GemstoneKeyKdf
slot = record { key_id = codes "w"; kdf_params = codes "p"; canary_wrapped = some (codes "c") }

abbrev settings : CryptoConfig
settings = record { database_vault_passphrase = some (codes " pw "); data_key_rotate_days = 30 }

abbrev booted : Server
booted = record {
  vault = record { kek_slots = slot ∷ []; deks = first_dek ∷ [] };
  process = record { crypto_ready = false; current = none };
  secrets = three_rows;
}

abbrev after_month : Fresh
after_month = record {
  kdf_params = [];
  wrap_key_id = [];
  data_alg = [];
  dek = codes "new";
  dek_key_id = codes "B";
  now = 2678400000000;
}

abbrev after_wire : Server
after_wire = (wire_database_crypto key_library settings booted).1

abbrev after_rotation : Server
after_rotation = (rotate_data_encryption_key_if_due key_library settings after_month after_wire).1

abbrev after_catchup : Server
after_catchup =
    (progressive_reencrypt_encrypted_strings_if_needed key_library plain_cipher settings 40
      after_rotation).1

abbrev day_of_tasks : Tasks key_library plain_cipher settings booted after_catchup
day_of_tasks =
    next (next (next start (wire booted)) (dek_rotate after_wire after_month))
      (encrypted_field_catchup after_rotation 40)

abbrev rotated_server : Server
rotated_server = record {
  vault = record {
    kek_slots = slot ∷ [];
    deks =
        record {
          key_id = codes "B";
          wrapped = codes "wnew";
          data_alg = codes "gcm";
          is_active = true;
          created_at = 2678400000000;
        }
        ∷ record first_dek { is_active = false }
        ∷ [];
  };
  process = record { crypto_ready = true; current = some (codes "B") };
  secrets = three_rows;
}

-- The key is a month old.
rotates : after_rotation ≡ rotated_server
unfolding rotate_data_encryption_key_if_due rotate_with when_ready rotated due_rotation due_active
    due_slot new_dek stored wire_database_crypto wire_with wired load_active verified_slot
    single_kek_slot active_dek_row at_most_one rows_where resolved_vault_passphrase key_library
    deactivate strip lstrip rstrip is_space
rotates = refl

abbrev caught_up_server : Server
caught_up_server = record rotated_server {
  secrets =
      record { bot_key = codes "ops"; secret_enc = 1 ∷ codes "Bsecret"; updated_at = 40 }
      ∷ record { bot_key = codes "db"; secret_enc = 1 ∷ codes "Bhidden"; updated_at = 6 }
      ∷ record { bot_key = codes "net"; secret_enc = 1 ∷ codes "Blate"; updated_at = 40 }
      ∷ [];
}
