-- ===== src/Secrets/Kept.antt =====
-- thaum/bot_webhook_state.py: a batch keeps every secret, and what a second one finds.
use thaum.Prelude.{
  ℕ, zero, suc, ◌≡◌, refl, sym, ap, ◌∙◌, subst, inl, inr, Bool, true, false, Option, none, some,
  List, [], ◌∷◌, ◌++◌, map, arith, if◌then◌else◌, Option-cases, take, drop, All, none-some,
}
use thaum.Text.{Text, text_eq, text_eq_refl, truthy}
use thaum.Secrets.{
  plain, Cipher, IsCipher, BotWebhookHmac, plaintext_from_secret_field, assign_secret,
  decrypted_stale, stale_by_key, stale_plaintext, keep_pending, pending,
  re_encrypt_stale_bot_webhook_hmac_batch,
}
use thaum.Secrets.Batch.{IsUnique, recrypt, stale_count, take-drop, re_encrypt_stale-refines}

-- The secret that a read gives for a bot, if it has a row.
unfoldable pub secret_of : Cipher → Text → List BotWebhookHmac → Option (Option Text)
unfolding text_eq plaintext_from_secret_field
secret_of c bot_key [] = none
secret_of c bot_key (row ∷ rows) =
    if text_eq row.bot_key bot_key
    then some (plaintext_from_secret_field c row)
    else secret_of c bot_key rows

stale_plaintext_sound :
    (c : Cipher) (active p : Text) (row : BotWebhookHmac)
    → stale_plaintext c active row ≡ some (some p)
    → c.decrypt row.secret_enc ≡ plain p
unfolding stale_plaintext stale_by_key decrypted_stale
stale_plaintext_sound c active p row e = ground arith

same_either : {A : Type 0} (b : Bool) (x : A) → (if b then x else x) ≡ x
same_either true x = refl
same_either false x = refl

take-recrypted :
    {A : Type 0} (g : A → A) (n : ℕ) (rows : List A)
    → take n (map g (take n rows) ++ drop n rows) ≡ map g (take n rows)
take-recrypted g zero rows = refl
take-recrypted g (suc n) [] = refl
take-recrypted g (suc n) (x ∷ rows) = ap (λ rest. g x ∷ rest) (take-recrypted g n rows)

drop-recrypted :
    {A : Type 0} (g : A → A) (n : ℕ) (rows : List A)
    → drop n (map g (take n rows) ++ drop n rows) ≡ drop n rows
drop-recrypted g zero rows = refl
drop-recrypted g (suc n) [] = refl
drop-recrypted g (suc n) (x ∷ rows) = drop-recrypted g n rows

pending_rest :
    (bot_key : Text) (o : Option Text) (rest : Option (List (Text × Text)))
    (ps : List (Text × Text))
    → keep_pending bot_key (some o) rest ≡ some ps
    → (qs : List (Text × Text)) × (rest ≡ some qs)
unfolding keep_pending
pending_rest bot_key none rest ps e = (ps, e)
pending_rest bot_key (some p) none ps e = absurd (none-some ps e)
pending_rest bot_key (some p) (some qs) ps e = (qs, refl)

module _ (c : Cipher) (v : IsCipher c) (active : Text) (now : ℕ) where
  recrypt-plaintext :
      (current : Text) (row : BotWebhookHmac)
      → (recrypt c current active now row).bot_key ≡ row.bot_key
        × (plaintext_from_secret_field c (recrypt c current active now row)
            ≡ plaintext_from_secret_field c row)
  unfolding recrypt assign_secret plaintext_from_secret_field
  recrypt-plaintext current row = elim (Option-cases (stale_plaintext c active row)) [
    | inl fails ↦ rw fails (refl, refl)
    | inr (none, skipped) ↦ rw skipped (refl, refl)
    | inr (some p, stale) ↦
        rw (stale, v.decrypts current p, stale_plaintext_sound c active p row stale) (refl, refl)
  ]

  secret_of-recrypt :
      (current bot_key : Text) (ys zs : List BotWebhookHmac)
      → secret_of c bot_key (map (recrypt c current active now) ys ++ zs)
        ≡ secret_of c bot_key (ys ++ zs)
  unfolding secret_of
  secret_of-recrypt current bot_key [] zs = refl
  secret_of-recrypt current bot_key (y ∷ ys) zs =
      let y' = recrypt c current active now y in
      let (same, reads) = recrypt-plaintext current y in
      let rest = secret_of c bot_key (map (recrypt c current active now) ys ++ zs) in
      ap (λ k. if text_eq k bot_key then some (plaintext_from_secret_field c y') else rest) same
      ∙ ap (λ o. if text_eq y.bot_key bot_key then some o else rest) reads
      ∙ ap (λ o. if text_eq y.bot_key bot_key then some (plaintext_from_secret_field c y) else o)
          (secret_of-recrypt current bot_key ys zs)

  recrypt-current :
      (row : BotWebhookHmac) (o : Option Text)
      → stale_plaintext c active row ≡ some o
      → stale_plaintext c active (recrypt c active active now row) ≡ some none
  unfolding recrypt assign_secret stale_plaintext stale_by_key
  recrypt-current row none e = rw e e
  recrypt-current row (some p) e =
      rw (e, v.names active p, text_eq_refl active)
        (same_either (truthy (c.encrypt active p)) (some none))

  pending-some :
      (rows : List BotWebhookHmac) (ps : List (Text × Text))
      → pending c active rows ≡ some ps
      → pending c active (map (recrypt c active active now) rows) ≡ some []
  unfolding pending
  pending-some [] ps e = refl
  pending-some (row ∷ rows) ps e = elim (Option-cases (stale_plaintext c active row)) [
    | inl fails ↦ absurd (none-some ps (rw fails at e))
    | inr (o, found) ↦
        let (qs, rest) = pending_rest row.bot_key o (pending c active rows) ps (rw found at e) in
        rw (recrypt-current row o found) (pending-some rows qs rest)
  ]

some_pair :
    {A B : Type 0} (a a' : A) (b b' : B)
    → ◌≡◌ {A = Option (A × B)} (some (a, b)) (some (a', b'))
    → b ≡ b'
some_pair a a' b b' e = cc

-- The table after a batch.
abbrev IsAgain :
    Cipher
    → (active bot_key : Text) → (later batch_limit : ℕ) → (rows rows' : List BotWebhookHmac)
    → Type 0
IsAgain c active bot_key later batch_limit rows rows' =
    (secret_of c bot_key rows' ≡ secret_of c bot_key rows)
    × (drop batch_limit rows' ≡ drop batch_limit rows)
    × (re_encrypt_stale_bot_webhook_hmac_batch c active active later batch_limit rows'
        ≡ some (0, rows'))

again :
    (c : Cipher) (active bot_key : Text) (now later batch_limit : ℕ) (rows : List BotWebhookHmac)
    (ps : List (Text × Text))
    → IsCipher c
    → pending c active (take batch_limit rows) ≡ some ps
    → IsAgain c active bot_key later batch_limit rows
        (map (recrypt c active active now) (take batch_limit rows) ++ drop batch_limit rows)
unfolding re_encrypt_stale_bot_webhook_hmac_batch
again c active bot_key now later batch_limit rows ps v found =
    let g = recrypt c active active now in
    let first = take batch_limit rows in
    (
      secret_of-recrypt c v active now active bot_key first (drop batch_limit rows)
          ∙ ap (secret_of c bot_key) (take-drop batch_limit rows),
      drop-recrypted g batch_limit rows,
      rw (take-recrypted g batch_limit rows, pending-some c v active now first ps found) refl,
    )

-- A batch under the active key keeps the secret of every bot, also of one whose row is not in it,
-- and it leaves no stale row among those that it looked at: a batch that follows on the same
-- listing updates nothing. So a row past the limit waits until the database lists it earlier.
pub re_encrypt_stale_again :
    (c : Cipher) (active bot_key : Text) (now later batch_limit n : ℕ)
    (rows rows' : List BotWebhookHmac)
    → IsCipher c
    → IsUnique rows
    → re_encrypt_stale_bot_webhook_hmac_batch c active active now batch_limit rows ≡ some (n, rows')
    → (secret_of c bot_key rows' ≡ secret_of c bot_key rows)
      × (drop batch_limit rows' ≡ drop batch_limit rows)
      × (re_encrypt_stale_bot_webhook_hmac_batch c active active later batch_limit rows'
          ≡ some (0, rows'))
unfolding re_encrypt_stale_bot_webhook_hmac_batch
re_encrypt_stale_again c active bot_key now later batch_limit n rows rows' v u e =
    let first = take batch_limit rows in
    elim (Option-cases (pending c active first)) [
      | inl fails ↦ absurd (none-some (n, rows') (rw fails at e))
      | inr (ps, found) ↦
          subst (IsAgain c active bot_key later batch_limit rows)
            (some_pair (stale_count c active first) n
              (map (recrypt c active active now) first ++ drop batch_limit rows) rows'
              (sym (re_encrypt_stale-refines c active active now batch_limit rows ps u found) ∙ e))
            (again c active bot_key now later batch_limit rows ps v found)
    ]

All-recrypt :
    (c : Cipher) (v : IsCipher c) (current active : Text) (now : ℕ) (key : Text)
    (ys zs : List BotWebhookHmac)
    → All (λ other. text_eq key other.bot_key ≡ false) (ys ++ zs)
    → All (λ other. text_eq key other.bot_key ≡ false) (map (recrypt c current active now) ys ++ zs)
All-recrypt c v current active now key [] zs a = a
All-recrypt c v current active now key (y ∷ ys) zs (e, a) = (
  ap (text_eq key) (recrypt-plaintext c v active now current y).0 ∙ e,
  All-recrypt c v current active now key ys zs a,
)

recrypt-IsUnique :
    (c : Cipher) (v : IsCipher c) (current active : Text) (now : ℕ) (ys zs : List BotWebhookHmac)
    → IsUnique (ys ++ zs)
    → IsUnique (map (recrypt c current active now) ys ++ zs)
recrypt-IsUnique c v current active now [] zs u = u
recrypt-IsUnique c v current active now (y ∷ ys) zs (d, u) = (
  subst
      (λ k.
        All (λ other. text_eq k other.bot_key ≡ false)
          (map (recrypt c current active now) ys ++ zs))
      (sym (recrypt-plaintext c v active now current y).0)
      (All-recrypt c v current active now y.bot_key ys zs d),
  recrypt-IsUnique c v current active now ys zs u,
)

-- Whatever the current key is, a batch keeps the primary key and every secret.
pub re_encrypt_stale-keeps :
    (c : Cipher) (current active : Text) (now batch_limit n : ℕ) (rows rows' : List BotWebhookHmac)
    → IsCipher c
    → IsUnique rows
    → re_encrypt_stale_bot_webhook_hmac_batch c current active now batch_limit rows
      ≡ some (n, rows')
    → IsUnique rows' × ((bot_key : Text) → secret_of c bot_key rows' ≡ secret_of c bot_key rows)
unfolding re_encrypt_stale_bot_webhook_hmac_batch
re_encrypt_stale-keeps c current active now batch_limit n rows rows' v u e =
    let first = take batch_limit rows in
    let whole = take-drop batch_limit rows in
    elim (Option-cases (pending c active first)) [
      | inl fails ↦ absurd (none-some (n, rows') (rw fails at e))
      | inr (ps, found) ↦
          subst
            (λ rest.
              IsUnique rest
              × ((bot_key : Text) → secret_of c bot_key rest ≡ secret_of c bot_key rows))
            (some_pair (stale_count c active first) n
              (map (recrypt c current active now) first ++ drop batch_limit rows) rows'
              (sym (re_encrypt_stale-refines c current active now batch_limit rows ps u found) ∙ e))
            (
              recrypt-IsUnique c v current active now first (drop batch_limit rows)
                  (subst IsUnique (sym whole) u),
              λ bot_key.
                  secret_of-recrypt c v active now current bot_key first (drop batch_limit rows)
                  ∙ ap (secret_of c bot_key) whole,
            )
    ]

-- Nothing that a batch under the active key looked at is stale after it.
pub re_encrypt_stale-none_left :
    (c : Cipher) (active : Text) (now batch_limit n : ℕ) (rows rows' : List BotWebhookHmac)
    → IsCipher c
    → IsUnique rows
    → re_encrypt_stale_bot_webhook_hmac_batch c active active now batch_limit rows ≡ some (n, rows')
    → pending c active (take batch_limit rows') ≡ some []
unfolding re_encrypt_stale_bot_webhook_hmac_batch
re_encrypt_stale-none_left c active now batch_limit n rows rows' v u e =
    let first = take batch_limit rows in
    let g = recrypt c active active now in
    elim (Option-cases (pending c active first)) [
      | inl fails ↦ absurd (none-some (n, rows') (rw fails at e))
      | inr (ps, found) ↦
          subst (λ rest. pending c active (take batch_limit rest) ≡ some [])
            (some_pair (stale_count c active first) n (map g first ++ drop batch_limit rows) rows'
              (sym (re_encrypt_stale-refines c active active now batch_limit rows ps u found) ∙ e))
            (ap (pending c active) (take-recrypted g batch_limit rows)
              ∙ pending-some c v active now first ps found)
    ]
