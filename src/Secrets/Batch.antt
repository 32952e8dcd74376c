-- ===== src/Secrets/Batch.antt =====
-- thaum/bot_webhook_state.py, re_encrypt_stale_bot_webhook_hmac_batch: what a batch does to the table.
use thaum.Prelude.{
  ℕ, zero, suc, ◌+◌, ◌≡◌, refl, ap, ◌∙◌, inl, inr, false, Option, none, some, List, [], ◌∷◌, ◌++◌,
  map, append_assoc, arith, Option-cases, take, drop, All, All-append, none-some, some-inj,
}
use thaum.Text.{Text, text_eq, text_eq_refl}
use thaum.Table.{find_row, update_row}
use thaum.Secrets.{
  Cipher, BotWebhookHmac, of_bot, assign_secret, stale_plaintext, pending, update_pending,
  re_encrypt_stale_bot_webhook_hmac_batch,
}

-- The primary key.
abbrev pub IsUnique : List BotWebhookHmac → Type 0
IsUnique [] = Unit
IsUnique (row ∷ rows) =
    All (λ other. text_eq row.bot_key other.bot_key ≡ false) rows × IsUnique rows

-- What a batch does to one row.
abbrev recrypted : Cipher → Text → ℕ → BotWebhookHmac → Option (Option Text) → BotWebhookHmac
recrypted c current now row none = row
recrypted c current now row (some none) = row
recrypted c current now row (some (some p)) = assign_secret c current now p row

unfoldable pub recrypt : Cipher → (current active : Text) → ℕ → BotWebhookHmac → BotWebhookHmac
unfolding stale_plaintext assign_secret
recrypt c current active now row = recrypted c current now row (stale_plaintext c active row)

-- One for a row that is updated.
abbrev pub updates : Option (Option Text) → ℕ
updates none = 0
updates (some none) = 0
updates (some (some p)) = 1

unfoldable pub stale_count : Cipher → Text → List BotWebhookHmac → ℕ
unfolding stale_plaintext
stale_count c active [] = 0
stale_count c active (row ∷ rows) =
    updates (stale_plaintext c active row) + stale_count c active rows

-- No row before has the key of one that follows.
abbrev Apart : List BotWebhookHmac → List BotWebhookHmac → Type 0
Apart xs ys = All (λ y. All (λ x. text_eq x.bot_key y.bot_key ≡ false) xs) ys

find_row-there :
    (xs ys : List BotWebhookHmac) (y : BotWebhookHmac)
    → All (λ x. text_eq x.bot_key y.bot_key ≡ false) xs
    → find_row (of_bot y.bot_key) (xs ++ y ∷ ys) ≡ some y
unfolding find_row of_bot
find_row-there [] ys y a = rw (text_eq_refl y.bot_key) refl
find_row-there (x ∷ xs) ys y (e, a) = rw e (find_row-there xs ys y a)

update_row-there :
    (f : BotWebhookHmac → BotWebhookHmac) (xs ys : List BotWebhookHmac) (y : BotWebhookHmac)
    → All (λ x. text_eq x.bot_key y.bot_key ≡ false) xs
    → update_row (of_bot y.bot_key) f (xs ++ y ∷ ys) ≡ xs ++ f y ∷ ys
unfolding update_row of_bot
update_row-there f [] ys y a = rw (text_eq_refl y.bot_key) refl
update_row-there f (x ∷ xs) ys y (e, a) =
    rw e (ap (λ rest. x ∷ rest) (update_row-there f xs ys y a))

-- One more row before.
Apart-next :
    (xs ys : List BotWebhookHmac) (y y' : BotWebhookHmac)
    → y'.bot_key ≡ y.bot_key
    → All (λ other. text_eq y.bot_key other.bot_key ≡ false) ys
    → Apart xs ys
    → Apart (xs ++ y' ∷ []) ys
Apart-next xs [] y y' same u a = tt
Apart-next xs (z ∷ ys) y y' same (e, u) (b, a) = (
  All-append (λ x. text_eq x.bot_key z.bot_key ≡ false) xs (y' ∷ []) b (rw same e, tt),
  Apart-next xs ys y y' same u a,
)

append-one :
    (xs ys : List BotWebhookHmac) (y : BotWebhookHmac) → (xs ++ y ∷ []) ++ ys ≡ xs ++ (y ∷ ys)
append-one xs ys y = append_assoc xs (y ∷ []) ys

module _ (c : Cipher) (current active : Text) (now : ℕ) where
  -- The rows `ys` are in the batch, `xs` stand before them and `zs` after them.
  update_pending-refines :
      (n : ℕ) (xs ys zs : List BotWebhookHmac) (ps : List (Text × Text))
      → pending c active ys ≡ some ps
      → Apart xs ys
      → IsUnique ys
      → update_pending c current now ps (n, xs ++ (ys ++ zs))
        ≡ (n + stale_count c active ys, xs ++ (map (recrypt c current active now) ys ++ zs))
  unfolding pending update_pending stale_count recrypt assign_secret
  update_pending-refines n xs [] zs ps e a u =
      rw (← some-inj [] ps e) (ap (λ (k : ℕ). (k, xs ++ zs)) (omega arith))
  update_pending-refines n xs (y ∷ ys) zs ps e (b, a) (d, u) =
      elim (Option-cases (stale_plaintext c active y)) [
        | inl fails ↦ absurd (none-some ps (rw fails at e))
        | inr (none, skipped) ↦
            let later =
              update_pending-refines n (xs ++ y ∷ []) ys zs ps (rw skipped at e)
                (Apart-next xs ys y y refl d a) u in
            rw skipped (
              rw
                (
                  append-one xs (ys ++ zs) y,
                  append-one xs (map (recrypt c current active now) ys ++ zs) y,
                )
                at later
              ∙ ap (λ (k : ℕ). (k, xs ++ (y ∷ (map (recrypt c current active now) ys ++ zs))))
                  (omega arith))
        | inr (some p, stale) ↦ elim (Option-cases (pending c active ys)) [
          | inl fails ↦ absurd (none-some ps (rw (stale, fails) at e))
          | inr (qs, found) ↦
              let y' = assign_secret c current now p y in
              let later =
                update_pending-refines (n + 1) (xs ++ y' ∷ []) ys zs qs found
                  (Apart-next xs ys y y' refl d a) u in
              rw
                (
                  stale,
                  ← some-inj ((y.bot_key, p) ∷ qs) ps (rw (stale, found) at e),
                  find_row-there xs (ys ++ zs) y b,
                  update_row-there (assign_secret c current now p) xs (ys ++ zs) y b,
                )
                (rw
                    (
                      append-one xs (ys ++ zs) y',
                      append-one xs (map (recrypt c current active now) ys ++ zs) y',
                    )
                    at later
                  ∙ ap (λ (k : ℕ). (k, xs ++ (y' ∷ (map (recrypt c current active now) ys ++ zs))))
                      (omega arith))
        ]
      ]

pub take-drop : {A : Type 0} (n : ℕ) (rows : List A) → take n rows ++ drop n rows ≡ rows
take-drop zero rows = refl
take-drop (suc n) [] = refl
take-drop (suc n) (x ∷ rows) = ap (λ rest. x ∷ rest) (take-drop n rows)

All-take : {A : Type 0} (P : A → Type 0) (n : ℕ) (rows : List A) → All P rows → All P (take n rows)
All-take P zero rows a = tt
All-take P (suc n) [] a = tt
All-take P (suc n) (x ∷ rows) (e, a) = (e, All-take P n rows a)

take-IsUnique : (n : ℕ) (rows : List BotWebhookHmac) → IsUnique rows → IsUnique (take n rows)
take-IsUnique zero rows u = tt
take-IsUnique (suc n) [] u = tt
take-IsUnique (suc n) (row ∷ rows) (d, u) =
    (All-take (λ other. text_eq row.bot_key other.bot_key ≡ false) n rows d, take-IsUnique n rows u)

All-none : (ys : List BotWebhookHmac) → Apart [] ys
All-none [] = tt
All-none (y ∷ ys) = (tt, All-none ys)

pub re_encrypt_stale-refines :
    (c : Cipher) (current active : Text) (now batch_limit : ℕ) (rows : List BotWebhookHmac)
    (ps : List (Text × Text))
    → IsUnique rows
    → pending c active (take batch_limit rows) ≡ some ps
    → re_encrypt_stale_bot_webhook_hmac_batch c current active now batch_limit rows
      ≡ some (
        stale_count c active (take batch_limit rows),
        map (recrypt c current active now) (take batch_limit rows) ++ drop batch_limit rows,
      )
unfolding re_encrypt_stale_bot_webhook_hmac_batch
re_encrypt_stale-refines c current active now batch_limit rows ps u found =
    let first = take batch_limit rows in
    let one =
      update_pending-refines c current active now 0 [] first (drop batch_limit rows) ps found
        (All-none first) (take-IsUnique batch_limit rows u) in
    rw found (
      ap some (
        rw (take-drop batch_limit rows) at one
        ∙ ap (λ (k : ℕ). (k, map (recrypt c current active now) first ++ drop batch_limit rows))
            (omega arith)))
