-- ===== src/Webex/Secret/Agreeing.antt =====
-- bots/plugins/webex_bot.py with thaum/bot_webhook_state.py: workers of one bot agree on its secret.
use thaum.Prelude.{
  ℕ, ◌-◌, ◌≡◌, refl, sym, ap, ◌∙◌, subst, inl, inr, true, Option, none, some, List, [], ◌∷◌, ◌++◌,
  ltb, Bool-cases, none-some, some-inj, if-elim,
}
use thaum.Text.{Text, text_eq_refl, truthy, strip}
use thaum.Table.{find_row}
use thaum.Secrets.{
  Cipher, IsCipher, BotWebhookHmac, of_bot, plaintext_from_secret_field, Ensured,
  ensure_bot_webhook_hmac_secret,
}
use thaum.Secrets.Ensuring.{
  find_row-append, ensure_rounds-found, ensure_bot_webhook_hmac_secret-converges,
}
use thaum.Webex.Secret.{
  shared_db, WebexBot, Draw, ensure_with, Effective, cached, shared_secret, secret_by_mode,
  effective_hmac_secret, signature_matches, validate_secret, validate_signature,
}

-- The table holds the secret of the bot.
abbrev pub IsSecret : Cipher → Text → Text → List BotWebhookHmac → Type 0
IsSecret c bot_key secret rows =
    (row : BotWebhookHmac) × (find_row (of_bot bot_key) rows ≡ some row)
    × (plaintext_from_secret_field c row ≡ some secret)

-- What a worker remembers is the secret in the table.
abbrev pub HasCached : Cipher → WebexBot → List BotWebhookHmac → Type 0
HasCached c bot rows =
    (secret : Text) → bot.cache_plain ≡ some secret → IsSecret c bot.bot_key secret rows

IsSecret-append :
    (c : Cipher) (bot_key secret : Text) (rows more : List BotWebhookHmac)
    → IsSecret c bot_key secret rows
    → IsSecret c bot_key secret (rows ++ more)
IsSecret-append c bot_key secret rows more (row, found, reads) =
    (row, find_row-append (of_bot bot_key) rows more row found, reads)

-- There is one secret.
IsSecret-unique :
    (c : Cipher) (bot_key s t : Text) (rows : List BotWebhookHmac)
    → IsSecret c bot_key s rows
    → IsSecret c bot_key t rows
    → s ≡ t
IsSecret-unique c bot_key s t rows (row, found, reads) (row', found', reads') =
    let same = some-inj row row' (sym found ∙ found') in
    some-inj s t (sym reads ∙ ap (plaintext_from_secret_field c) same ∙ reads')

module _ (c : Cipher) (d : Draw) where
  ensure_with-found :
      (bot_key secret : Text) (rows : List BotWebhookHmac)
      → truthy (strip bot_key) ≡ true
      → IsSecret c bot_key secret rows
      → ensure_with c d bot_key rows ≡ (some secret, rows)
  unfolding ensure_with ensure_bot_webhook_hmac_secret
  ensure_with-found bot_key secret rows named (row, found, reads) = rw named (
      ensure_rounds-found c d.key_id bot_key (d.first ∷ d.second ∷ d.third ∷ []) rows row found
      ∙ ap (λ o. (o, rows)) reads)

  ensure_with-IsSecret :
      (bot_key secret : Text) (rows : List BotWebhookHmac)
      → IsCipher c
      → truthy (strip bot_key) ≡ true
      → (ensure_with c d bot_key rows).0 ≡ some secret
      → IsSecret c bot_key secret (ensure_with c d bot_key rows).1
  unfolding ensure_with
  ensure_with-IsSecret bot_key secret rows v named e =
      let ((row, found, same), _) =
        ensure_bot_webhook_hmac_secret-converges c d.key_id d.key_id bot_key d.first d.second
          d.third d.first d.second d.third rows [] v named in
      (row, found, sym same ∙ e)

  cached-IsSecret :
      (bot : WebexBot) (now : ℕ) (secret : Text) (o : Ensured)
      → ((s : Text) → o.0 ≡ some s → IsSecret c bot.bot_key s o.1)
      → (cached bot now o).0 ≡ some (some secret)
      → IsSecret c bot.bot_key secret (cached bot now o).2
  unfolding cached
  cached-IsSecret bot now secret (none, rows) h e = absurd (none-some (some secret) e)
  cached-IsSecret bot now secret (some s, rows) h e = h secret (some-inj (some s) (some secret) e)

  effective-IsSecret :
      (bot : WebexBot) (now : ℕ) (secret : Text) (rows : List BotWebhookHmac) (o : Option Text)
      → IsCipher c
      → truthy (strip bot.bot_key) ≡ true
      → bot.cache_plain ≡ o
      → HasCached c bot rows
      → (shared_secret c d now bot rows o).0 ≡ some (some secret)
      → IsSecret c bot.bot_key secret (shared_secret c d now bot rows o).2
  unfolding shared_secret
  effective-IsSecret bot now secret rows none v named known has e =
      cached-IsSecret bot now secret (ensure_with c d bot.bot_key rows)
        (λ s. ensure_with-IsSecret bot.bot_key s rows v named) e
  effective-IsSecret bot now secret rows (some p) v named known has e =
      elim (Bool-cases (ltb (now - bot.cache_monotonic) bot.cache_refresh)) [
        | inl fresh ↦
            rw fresh (has secret (known ∙ some-inj (some p) (some secret) (rw fresh at e)))
        | inr stale ↦ rw stale (
            cached-IsSecret bot now secret (ensure_with c d bot.bot_key rows)
              (λ s. ensure_with-IsSecret bot.bot_key s rows v named) (rw stale at e))
      ]

  shared_secret-known :
      (bot : WebexBot) (now : ℕ) (secret : Text) (rows : List BotWebhookHmac) (o : Option Text)
      → truthy (strip bot.bot_key) ≡ true
      → bot.cache_plain ≡ o
      → HasCached c bot rows
      → IsSecret c bot.bot_key secret rows
      → (shared_secret c d now bot rows o).0 ≡ some (some secret)
  unfolding shared_secret cached
  shared_secret-known bot now secret rows none named known has is_it =
      rw (ensure_with-found bot.bot_key secret rows named is_it) refl
  shared_secret-known bot now secret rows (some p) named known has is_it =
      if-elim (λ (e : Effective). e.0 ≡ some (some secret))
        (ltb (now - bot.cache_monotonic) bot.cache_refresh) (some (some p), bot, rows)
        (cached bot now (ensure_with c d bot.bot_key rows))
        (λ _.
          ap (λ s. some (some s)) (IsSecret-unique c bot.bot_key p secret rows (has p known) is_it))
        (λ _. rw (ensure_with-found bot.bot_key secret rows named is_it) refl)

validate_secret_self :
    (hmac : Text → Text → Text) (body secret : Text)
    → truthy (hmac secret body) ≡ true
    → validate_secret hmac body (some (hmac secret body)) (some (some secret)) ≡ some true
unfolding validate_secret signature_matches
validate_secret_self hmac body [] t = refl
validate_secret_self hmac body (k ∷ secret) t = rw (t, text_eq_refl (hmac (k ∷ secret) body)) refl

-- A request that Webex signs with the secret under which one worker registered the webhook is accepted
-- by every worker of the same bot, at any later time: whatever the other draws and remembers of the
-- stored secret, and whatever rows were added to the table since.
pub validate_signature-agrees :
    (hmac : Text → Text → Text) (c : Cipher) (d d' : Draw) (now later : ℕ) (a b : WebexBot)
    (body secret : Text) (rows more : List BotWebhookHmac)
    → IsCipher c
    → a.hmac_mode ≡ shared_db
    → b.hmac_mode ≡ shared_db
    → a.bot_key ≡ b.bot_key
    → truthy (strip a.bot_key) ≡ true
    → truthy (hmac secret body) ≡ true
    → HasCached c a rows
    → HasCached c b ((effective_hmac_secret c d now a rows).2 ++ more)
    → (effective_hmac_secret c d now a rows).0 ≡ some (some secret)
    → (validate_signature hmac c d' later body
        (some (hmac secret body))
        b
        ((effective_hmac_secret c d now a rows).2 ++ more)).0
      ≡ some true
unfolding validate_signature effective_hmac_secret secret_by_mode
validate_signature-agrees hmac c d d' now later a b body secret rows more v shared_a shared_b same
      named signed has_a has_b e =
    let table = (effective_hmac_secret c d now a rows).2 ++ more in
    let mode_a : effective_hmac_secret c d now a rows ≡ shared_secret c d now a rows a.cache_plain =
      ap (secret_by_mode c d now a rows) shared_a in
    let mode_b : effective_hmac_secret c d' later b table
        ≡ shared_secret c d' later b table b.cache_plain =
      ap (secret_by_mode c d' later b table) shared_b in
    let stored =
      effective-IsSecret c d a now secret rows a.cache_plain v named refl has_a
        (ap (λ (r : Effective). r.0) (sym mode_a) ∙ e) in
    let met : IsSecret c b.bot_key secret table =
      subst (λ k. IsSecret c k secret table) same
        (IsSecret-append c a.bot_key secret (effective_hmac_secret c d now a rows).2 more (
          subst (IsSecret c a.bot_key secret) (ap (λ (r : Effective). r.2) (sym mode_a)) stored)) in
    ap (validate_secret hmac body (some (hmac secret body))) (
      ap (λ (r : Effective). r.0) mode_b
      ∙ shared_secret-known c d' b later secret table b.cache_plain
          (ap (λ k. truthy (strip k)) (sym same) ∙ named) refl has_b met)
    ∙ validate_secret_self hmac body secret signed
