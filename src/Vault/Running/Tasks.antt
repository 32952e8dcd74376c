-- ===== src/Vault/Running/Tasks.antt =====
-- thaum/database_crypto.py with thaum/builtin_leader_tasks.py: the leader's tasks on the keys, in any
-- order and number.
use thaum.Prelude.{ℕ}
use thaum.Secrets.{Cipher}
use thaum.Vault.{KeyLibrary, Fresh}
use thaum.Vault.Running.{
  Server, CryptoConfig, wire_database_crypto, rotate_data_encryption_key_if_due,
  progressive_reencrypt_encrypted_strings_if_needed,
}
use thaum.Text.{Text}

-- One task, whether it raises or not.
pub data Task (lib : KeyLibrary) (c : Cipher) (cfg : CryptoConfig) : Server → Server → Type 0 where
  wire : (s : Server) → Task lib c cfg s (wire_database_crypto lib cfg s).1
  dek_rotate :
      (s : Server) (fresh : Fresh)
      → Task lib c cfg s (rotate_data_encryption_key_if_due lib cfg fresh s).1
  encrypted_field_catchup :
      (s : Server) (now : ℕ)
      → Task lib c cfg s (progressive_reencrypt_encrypted_strings_if_needed lib c cfg now s).1

pub data Tasks (lib : KeyLibrary) (c : Cipher) (cfg : CryptoConfig) (s : Server)
    : Server → Type 0 where
  start : Tasks lib c cfg s s
  next : {t u : Server} → Tasks lib c cfg s t → Task lib c cfg t u → Tasks lib c cfg s u
