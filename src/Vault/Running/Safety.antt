-- ===== src/Vault/Running/Safety.antt =====
-- thaum/database_crypto.py: rotation and catch-up keep the secrets and write under the active key.
use thaum.Prelude.{
  ℕ, ◌≡◌, refl, sym, ap, ◌∙◌, ◌⊎◌, inl, inr, true, Option, none, some, List, [], ◌∷◌, ◌==◌,
  Bool-cases, Option-cases, if-elim,
}
use thaum.Text.{Text}
use thaum.Table.{rows_where}
use thaum.Secrets.{Cipher, IsCipher, re_encrypt_stale_bot_webhook_hmac_batch}
use thaum.Secrets.Batch.{IsUnique}
use thaum.Secrets.Kept.{secret_of, re_encrypt_stale-keeps}
use thaum.Vault.{
  Error, no_canary, no_active, bad_key, Result, ok, raised, ◌>>=◌, GemstoneKeyKdf,
  GemstoneKeyRecord, Vault, KeyLibrary, resolved_vault_passphrase, single_kek_slot, active_dek_row,
  or_raise, ensure_that, Fresh,
}
use thaum.Vault.Running.{
  Server, CryptoConfig, Outcome, verified_slot, load_active, wired, wire_with, wire_database_crypto,
  continue_ready, when_ready, due_rotation, new_dek, stored, rotated, rotate_with,
  rotate_data_encryption_key_if_due, catchup_batch, caught_up, catch_up_under, catch_up_active,
  catch_up_with, progressive_reencrypt_encrypted_strings_if_needed,
}

-- What the program relies on: a record that is put as active is the only active one then, and a key
-- that was wrapped can be loaded.
pub record IsKeyLibrary (lib : KeyLibrary) : Type 0 where
  pub puts :
      (row : GemstoneKeyRecord) (deks deks' : List GemstoneKeyRecord)
      → row.is_active ≡ true
      → lib.put_keyrecord row deks ≡ some deks'
      → rows_where (λ r. r.is_active) deks' ≡ row ∷ []
  pub loads_wrapped :
      (wrap_key_id kek dek alg key_id : Text)
      → lib.loads kek key_id (lib.wire_wrap wrap_key_id kek dek alg) ≡ true

-- A process that is ready writes under the active key, of which there is exactly one.
abbrev pub IsWired : Server → Type 0
IsWired s =
    s.process.crypto_ready ≡ true
    → (row : GemstoneKeyRecord) × (active_dek_row s.vault.deks ≡ ok (some row))
      × (s.process.current ≡ some row.key_id)

-- The state `t` has the secrets of `s`.
abbrev pub HasSecrets : Cipher → Server → Server → Type 0
HasSecrets c s t = (bot_key : Text) → secret_of c bot_key t.secrets ≡ secret_of c bot_key s.secrets

abbrev pub IsSafe : Cipher → Server → Server → Type 0
IsSafe c s t = IsWired t × IsUnique t.secrets × HasSecrets c s t

>>=-ok :
    {A B : Type 0} (m : Result A) (f : A → Result B) (b : B)
    → (m >>= f) ≡ ok b
    → (a : A) × (m ≡ ok a) × (f a ≡ ok b)
>>=-ok (ok a) f b e = (a, refl, e)
>>=-ok (raised x) f b e = cc

or_raise-ok : {A : Type 0} (x : Error) (o : Option A) (a : A) → or_raise x o ≡ ok a → o ≡ some a
or_raise-ok x none a e = cc
or_raise-ok x (some b) a e = cc

ok-inj : {A : Type 0} (a b : A) → ok a ≡ ok b → a ≡ b
ok-inj a b e = cc

load_active-ok :
    (lib : KeyLibrary) (passphrase : Text) (vault : Vault) (key_id : Text)
    → load_active lib passphrase vault ≡ ok key_id
    → (row : GemstoneKeyRecord) × (active_dek_row vault.deks ≡ ok (some row))
      × (key_id ≡ row.key_id)
unfolding load_active
load_active-ok lib passphrase vault key_id e =
    let (slot, _, e₁) = >>=-ok (single_kek_slot vault.kek_slots) _ key_id e in
    let (canary, _, e₂) = >>=-ok (or_raise no_canary slot.canary_wrapped) _ key_id e₁ in
    let (_, _, e₃) = >>=-ok (verified_slot lib passphrase slot canary) _ key_id e₂ in
    let (active, found, e₄) = >>=-ok (active_dek_row vault.deks) _ key_id e₃ in
    let (row, is_row, e₅) = >>=-ok (or_raise no_active active) _ key_id e₄ in
    let (_, _, e₆) =
      >>=-ok
        (ensure_that (lib.loads (lib.derive_kek passphrase slot.kdf_params) row.key_id row.wrapped)
          bad_key)
        _ key_id e₅ in
    (
      row,
      found ∙ ap ok (or_raise-ok no_active active row is_row),
      sym (ok-inj row.key_id key_id e₆),
    )

pub Result-cases :
    {A : Type 0} (m : Result A) → ((e : Error) × (m ≡ raised e)) ⊎ ((a : A) × (m ≡ ok a))
Result-cases (ok a) = inr (a, refl)
Result-cases (raised e) = inl (e, refl)

module _ (lib : KeyLibrary) (c : Cipher) (s : Server) where
  wire_with-IsSafe :
      (t : Server) (p : Option Text) → IsSafe c s t → IsSafe c s (wire_with lib t p).1
  unfolding wire_with wired
  wire_with-IsSafe t none (w, u, k) = ((λ ready. cc), u, k)
  wire_with-IsSafe t (some p) (w, u, k) =
      if-elim (λ o. IsSafe c s o.1) t.process.crypto_ready (none, t)
        (wired t (load_active lib p t.vault)) (λ ready. (w, u, k))
        (λ unready. elim (Result-cases (load_active lib p t.vault)) [
          | inl (e, fails) ↦ rw fails (w, u, k)
          | inr (key_id, loads) ↦
              let (row, found, same) = load_active-ok lib p t.vault key_id loads in
              rw loads ((λ _. (row, found, ap some same)), u, k)
        ])

  pub wire_database_crypto-IsSafe :
      (cfg : CryptoConfig) (t : Server)
      → IsSafe c s t
      → IsSafe c s (wire_database_crypto lib cfg t).1
  unfolding wire_database_crypto
  wire_database_crypto-IsSafe cfg t v =
      wire_with-IsSafe t (resolved_vault_passphrase cfg.database_vault_passphrase) v

  continue_ready-IsSafe :
      (rest : Server → Outcome) (o : Outcome)
      → ((t : Server) → t.process.crypto_ready ≡ true → IsSafe c s t → IsSafe c s (rest t).1)
      → IsSafe c s o.1
      → IsSafe c s (continue_ready rest o).1
  unfolding continue_ready
  continue_ready-IsSafe rest (some e, t) keeps v = v
  continue_ready-IsSafe rest (none, t) keeps v =
      if-elim (λ o. IsSafe c s o.1) t.process.crypto_ready (rest t) (none, t)
        (λ ready. keeps t ready v) (λ unready. v)

  when_ready-IsSafe :
      (cfg : CryptoConfig) (rest : Server → Outcome) (t : Server)
      → ((t' : Server) → t'.process.crypto_ready ≡ true → IsSafe c s t' → IsSafe c s (rest t').1)
      → IsSafe c s t
      → IsSafe c s (when_ready lib cfg rest t).1
  unfolding when_ready
  when_ready-IsSafe cfg rest t keeps v =
      if-elim (λ o. IsSafe c s o.1) t.process.crypto_ready (rest t)
        (continue_ready rest (wire_database_crypto lib cfg t)) (λ ready. keeps t ready v)
        (λ unready.
          continue_ready-IsSafe rest (wire_database_crypto lib cfg t) keeps
            (wire_database_crypto-IsSafe cfg t v))

  module _ (laws : IsKeyLibrary lib) where
    rotated-IsSafe :
        (passphrase : Text) (fresh : Fresh) (t : Server)
        (r : Result (Option (GemstoneKeyKdf × GemstoneKeyRecord)))
        → IsSafe c s t
        → IsSafe c s (rotated lib passphrase fresh t r).1
    unfolding rotated stored new_dek active_dek_row
    rotated-IsSafe passphrase fresh t (raised e) v = v
    rotated-IsSafe passphrase fresh t (ok none) v = v
    rotated-IsSafe passphrase fresh t (ok (some (slot, active))) (w, u, k) =
        let row = new_dek lib passphrase fresh slot active in
        elim (Option-cases (lib.put_keyrecord row t.vault.deks)) [
          | inl refused ↦ rw refused (w, u, k)
          | inr (deks, put) ↦
              rw
                (
                  put,
                  laws.loads_wrapped slot.key_id (lib.derive_kek passphrase slot.kdf_params)
                      fresh.dek active.data_alg fresh.dek_key_id,
                )
                ((λ _. (row, rw (laws.puts row t.vault.deks deks refl put) refl, refl)), u, k)
        ]

    pub rotate-IsSafe :
        (cfg : CryptoConfig) (fresh : Fresh) (t : Server)
        → IsSafe c s t
        → IsSafe c s (rotate_data_encryption_key_if_due lib cfg fresh t).1
    unfolding rotate_data_encryption_key_if_due rotate_with
    rotate-IsSafe cfg fresh t v = elim (Bool-cases (cfg.data_key_rotate_days == 0)) [
      | inl never ↦ rw never v
      | inr days ↦ elim (Option-cases (resolved_vault_passphrase cfg.database_vault_passphrase)) [
        | inl unset ↦ rw (days, unset) v
        | inr (p, is_set) ↦
            rw (days, is_set)
              (when_ready-IsSafe cfg
                (λ t'.
                  rotated lib p fresh t'
                    (due_rotation lib p cfg.data_key_rotate_days fresh.now t'.vault))
                t
                (λ t' _ v'.
                  rotated-IsSafe p fresh t'
                    (due_rotation lib p cfg.data_key_rotate_days fresh.now t'.vault) v')
                v)
      ]
    ]

  module _ (v : IsCipher c) where
    catch_up_under-IsSafe :
        (now : ℕ) (t : Server) (active : Text) (current : Option Text)
        → IsSafe c s t
        → IsSafe c s (catch_up_under c now t active current).1
    unfolding catch_up_under caught_up
    catch_up_under-IsSafe now t active none safe = safe
    catch_up_under-IsSafe now t active (some current) (w, u, k) =
        elim (Option-cases
          (re_encrypt_stale_bot_webhook_hmac_batch c current active now catchup_batch t.secrets)) [
            | inl fails ↦ rw fails (w, u, k)
            | inr ((n, rows), done) ↦
                let (u', same) =
                  re_encrypt_stale-keeps c current active now catchup_batch n t.secrets rows v u
                    done in
                rw done (w, u', λ bot_key. same bot_key ∙ k bot_key)
          ]

    catch_up_with-IsSafe :
        (now : ℕ) (p : Option Text) (t : Server)
        → IsSafe c s t
        → IsSafe c s (catch_up_with c now p t).1
    unfolding catch_up_with catch_up_active
    catch_up_with-IsSafe now none t safe = safe
    catch_up_with-IsSafe now (some p) t safe = elim (Result-cases (active_dek_row t.vault.deks)) [
      | inl (e, fails) ↦ rw fails safe
      | inr (none, no_row) ↦ rw no_row safe
      | inr (some row, found) ↦
          rw found (catch_up_under-IsSafe now t row.key_id t.process.current safe)
    ]

    pub progressive_reencrypt-IsSafe :
        (cfg : CryptoConfig) (now : ℕ) (t : Server)
        → IsSafe c s t
        → IsSafe c s (progressive_reencrypt_encrypted_strings_if_needed lib c cfg now t).1
    unfolding progressive_reencrypt_encrypted_strings_if_needed
    progressive_reencrypt-IsSafe cfg now t safe =
        let p = resolved_vault_passphrase cfg.database_vault_passphrase in
        when_ready-IsSafe cfg (catch_up_with c now p) t
          (λ t' _ safe'. catch_up_with-IsSafe now p t' safe') safe
