-- ===== src/Vault.antt =====
-- thaum/database_crypto.py: the keys of the database and the key under which a process writes.
--
-- Parameters: the key library (gemstone_utils) over the two tables that it keeps. Keys, parameters
-- and wire texts are texts. A key context is named by the id of its key. Times are in microseconds.
-- The days of the setting are a natural number, as a negative one is treated like zero.
pub mod Running
pub mod Tests
use thaum.Prelude.{
  ℕ, zero, Bool, true, false, ◌||◌, Option, none, some, List, [], ◌∷◌, if◌then◌else◌,
}
use thaum.Text.{Text, codes, text_eq, truthy, strip}
use thaum.Table.{rows_where}

pub data Error : Type 0 where
  conflict no_slot many_slots no_canary no_active many_active wrong_passphrase bad_key no_key
        undecryptable :
      Error

pub data Result (A : Type 0) : Type 0 where
  ok : A → Result A
  raised : Error → Result A

infixl 5 ◌>>=◌
abbrev pub ◌>>=◌ : {A B : Type 0} → Result A → (A → Result B) → Result B
ok a >>= f = f a
raised e >>= f = raised e

pub record GemstoneKeyKdf : Type 0 where
  pub key_id : Text
  pub kdf_params : Text
  pub canary_wrapped : Option Text

pub record GemstoneKeyRecord : Type 0 where
  pub key_id : Text
  pub wrapped : Text
  pub data_alg : Text
  pub is_active : Bool
  pub created_at : ℕ

pub record Vault : Type 0 where
  pub kek_slots : List GemstoneKeyKdf
  pub deks : List GemstoneKeyRecord

-- `verifies` is false where derive_and_verify_kek raises, `loads` where load_keyctx does; `none` of
-- the writes is an IntegrityError or a ValueError.
pub record KeyLibrary : Type 0 where
  pub derive_kek : (passphrase kdf_params : Text) → Text
  pub verifies : (passphrase kdf_params canary : Text) → Bool
  pub make_canary : (kek wrap_key_id : Text) → Text
  pub wire_wrap : (wrap_key_id kek dek alg : Text) → Text
  pub loads : (kek key_id wrapped : Text) → Bool
  pub set_kdf_params :
      (wrap_key_id kdf_params : Text) → List GemstoneKeyKdf → Option (List GemstoneKeyKdf)
  pub set_kek_canary :
      (wrap_key_id canary : Text) → List GemstoneKeyKdf → Option (List GemstoneKeyKdf)
  pub put_keyrecord : GemstoneKeyRecord → List GemstoneKeyRecord → Option (List GemstoneKeyRecord)

unfoldable pub resolved_vault_passphrase : Option Text → Option Text
unfolding strip
resolved_vault_passphrase none = none
resolved_vault_passphrase (some p) = let s = strip p in if truthy s then some s else none

-- The validated bots of the configuration with their HMAC mode, `none` where a row has none.
unfoldable pub requires_database_vault_passphrase : List (Option Text) → Bool
unfolding text_eq
requires_database_vault_passphrase [] = false
requires_database_vault_passphrase (none ∷ bots) = requires_database_vault_passphrase bots
requires_database_vault_passphrase (some mode ∷ bots) =
    text_eq mode (codes "shared_db") || requires_database_vault_passphrase bots

unfoldable pub single_kek_slot : List GemstoneKeyKdf → Result GemstoneKeyKdf
single_kek_slot [] = raised no_slot
single_kek_slot (slot ∷ []) = ok slot
single_kek_slot (slot ∷ other ∷ slots) = raised many_slots

unfoldable pub at_most_one : List GemstoneKeyRecord → Result (Option GemstoneKeyRecord)
at_most_one [] = ok none
at_most_one (row ∷ []) = ok (some row)
at_most_one (row ∷ other ∷ rows) = raised many_active

unfoldable pub active_dek_row : List GemstoneKeyRecord → Result (Option GemstoneKeyRecord)
unfolding at_most_one rows_where
active_dek_row deks = at_most_one (rows_where (λ row. row.is_active) deks)

abbrev pub or_conflict : {A : Type 0} → Option A → Result A
or_conflict none = raised conflict
or_conflict (some a) = ok a

abbrev pub or_raise : {A : Type 0} → Error → Option A → Result A
or_raise e none = raised e
or_raise e (some a) = ok a

abbrev pub ensure_that : Bool → Error → Result (Unit {0})
ensure_that true e = ok tt
ensure_that false e = raised e

-- What is drawn at random, with the clock.
pub record Fresh : Type 0 where
  pub kdf_params : Text
  pub wrap_key_id : Text
  pub data_alg : Text
  pub dek : Text
  pub dek_key_id : Text
  pub now : ℕ

unfoldable pub insert_initial_keys : KeyLibrary → Text → Fresh → Vault → Result Vault
insert_initial_keys lib passphrase fresh vault =
    let kek = lib.derive_kek passphrase fresh.kdf_params in
    or_conflict (lib.set_kdf_params fresh.wrap_key_id fresh.kdf_params vault.kek_slots) >>= λ slots.
    or_conflict (lib.set_kek_canary fresh.wrap_key_id (lib.make_canary kek fresh.wrap_key_id) slots)
    >>= λ slots'.
        or_conflict (
          lib.put_keyrecord
            (record {
              key_id = fresh.dek_key_id;
              wrapped = lib.wire_wrap fresh.wrap_key_id kek fresh.dek fresh.data_alg;
              data_alg = fresh.data_alg;
              is_active = true;
              created_at = fresh.now;
            })
            vault.deks)
        >>= λ deks. ok (record { kek_slots = slots'; deks = deks })

insert_if_empty : KeyLibrary → Text → Fresh → Vault → List GemstoneKeyKdf → Result Vault
unfolding insert_initial_keys
insert_if_empty lib passphrase fresh vault [] = insert_initial_keys lib passphrase fresh vault
insert_if_empty lib passphrase fresh vault (slot ∷ slots) = ok vault

-- One attempt: the vault that it finds, and whether its commit meets no conflict.
pub record Attempt : Type 0 where
  pub vault : Vault
  pub fresh : Fresh
  pub commits : Bool

unfoldable pub ensure_attempt : KeyLibrary → Text → Attempt → Result Vault
unfolding insert_if_empty single_kek_slot active_dek_row
ensure_attempt lib passphrase a =
    insert_if_empty lib passphrase a.fresh a.vault a.vault.kek_slots >>= λ vault.
    ensure_that a.commits conflict >>= λ _. single_kek_slot vault.kek_slots >>= λ slot.
    active_dek_row vault.deks >>= λ active. or_raise no_active active >>= λ row. ok vault

-- A conflict is met with the next attempt, if there is one; another error leaves the loop.
retry : Result Vault → Result Vault → Result Vault
retry (ok vault) next = ok vault
retry (raised conflict) next = next
retry (raised e) next = raised e

unfoldable pub ensure_attempts : KeyLibrary → Text → Attempt → List Attempt → Result Vault
unfolding ensure_attempt retry
ensure_attempts lib passphrase a [] = ensure_attempt lib passphrase a
ensure_attempts lib passphrase a (a' ∷ attempts) =
    retry (ensure_attempt lib passphrase a) (ensure_attempts lib passphrase a' attempts)

-- `none` without a passphrase. The source makes four attempts.
unfoldable pub ensure_vault_key_rows :
    KeyLibrary → Option Text → Attempt → Attempt → Attempt → Attempt → Option (Result Vault)
unfolding resolved_vault_passphrase ensure_attempts
ensure_vault_key_rows lib passphrase a₁ a₂ a₃ a₄ = elim (resolved_vault_passphrase passphrase) [
  | none ↦ none
  | some p ↦ some (ensure_attempts lib p a₁ (a₂ ∷ a₃ ∷ a₄ ∷ []))
]
