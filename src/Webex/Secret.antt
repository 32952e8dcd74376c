-- ===== src/Webex/Secret.antt =====
-- bots/plugins/webex_bot.py: the HMAC secret of a bot and the test of a request's signature.
--
-- Parameters: HMAC-SHA1 as a hexadecimal text, and what Secrets takes. The monotonic clock is a number
-- of milliseconds. A secret from the database is read or made under `key_id`, as Secrets does it.
pub mod Agreeing
use thaum.Prelude.{
  ℕ, ◌-◌, Bool, true, false, ◌&&◌, Option, none, some, List, [], ◌∷◌, ltb, if◌then◌else◌, length,
}
use thaum.Text.{Text, text_eq, truthy, strip}
use thaum.Secrets.{Cipher, BotWebhookHmac, Attempt, Ensured, ensure_bot_webhook_hmac_secret}

pub data HmacMode : Type 0 where
  shared_db pinned disabled : HmacMode

pub record WebexBot : Type 0 where
  pub hmac_mode : HmacMode
  pub hmac_secret : Option Text
  pub cache_plain : Option Text
  pub cache_monotonic : ℕ
  pub cache_refresh : ℕ
  pub bot_key : Text

-- What a call of ensure_bot_webhook_hmac_secret meets.
pub record Draw : Type 0 where
  pub key_id : Text
  pub first : Attempt
  pub second : Attempt
  pub third : Attempt

unfoldable pub ensure_with : Cipher → Draw → Text → List BotWebhookHmac → Ensured
unfolding ensure_bot_webhook_hmac_secret
ensure_with c d bot_key rows =
    ensure_bot_webhook_hmac_secret c d.key_id bot_key d.first d.second d.third rows

-- The bot, its secret and the table; the outer `none` is an exception.
abbrev pub Effective : Type 0
Effective = Option (Option Text) × WebexBot × List BotWebhookHmac

unfoldable pub cached : WebexBot → ℕ → Ensured → Effective
cached bot now (none, rows) = (none, bot, rows)
cached bot now (some secret, rows) =
    (some (some secret), record bot { cache_plain = some secret; cache_monotonic = now }, rows)

unfoldable pub shared_secret :
    Cipher → Draw → ℕ → WebexBot → List BotWebhookHmac → Option Text → Effective
unfolding cached ensure_with
shared_secret c d now bot rows none = cached bot now (ensure_with c d bot.bot_key rows)
shared_secret c d now bot rows (some plaintext) =
    if ltb (now - bot.cache_monotonic) bot.cache_refresh
    then (some (some plaintext), bot, rows)
    else cached bot now (ensure_with c d bot.bot_key rows)

unfoldable pub secret_by_mode :
    Cipher → Draw → ℕ → WebexBot → List BotWebhookHmac → HmacMode → Effective
unfolding shared_secret
secret_by_mode c d now bot rows disabled = (some none, bot, rows)
secret_by_mode c d now bot rows pinned = (some bot.hmac_secret, bot, rows)
secret_by_mode c d now bot rows shared_db = shared_secret c d now bot rows bot.cache_plain

unfoldable pub effective_hmac_secret :
    Cipher → Draw → ℕ → WebexBot → List BotWebhookHmac → Effective
unfolding secret_by_mode
effective_hmac_secret c d now bot rows = secret_by_mode c d now bot rows bot.hmac_mode

-- `complete_runtime_init`: false is an exception.
runtime_init : WebexBot → ℕ → Ensured → Bool × WebexBot × List BotWebhookHmac
runtime_init bot now (none, rows) = (false, bot, rows)
runtime_init bot now (some secret, rows) = (
  true,
  record bot { hmac_secret = some secret; cache_plain = some secret; cache_monotonic = now },
  rows,
)

init_by_mode :
    Cipher
    → Draw
    → ℕ
    → Bool
    → WebexBot
    → List BotWebhookHmac
    → HmacMode
    → Bool × WebexBot × List BotWebhookHmac
unfolding runtime_init ensure_with
init_by_mode c d now crypto_ready bot rows shared_db =
    if crypto_ready && truthy bot.bot_key
    then runtime_init bot now (ensure_with c d bot.bot_key rows)
    else (false, bot, rows)
init_by_mode c d now crypto_ready bot rows mode = (true, bot, rows)

unfoldable pub complete_runtime_init :
    Cipher
    → Draw
    → ℕ
    → Bool
    → WebexBot
    → List BotWebhookHmac
    → Bool × WebexBot × List BotWebhookHmac
unfolding init_by_mode
complete_runtime_init c d now crypto_ready bot rows =
    init_by_mode c d now crypto_ready bot rows bot.hmac_mode

-- With a secret, whether the signature is the one of the body.
unfoldable pub signature_matches : (Text → Text → Text) → Text → Option Text → Text → Bool
unfolding text_eq
signature_matches hmac body signature [] = true
signature_matches hmac body none (k ∷ secret) = false
signature_matches hmac body (some signature) (k ∷ secret) =
    truthy signature && text_eq (hmac (k ∷ secret) body) signature

unfoldable pub validate_secret :
    (Text → Text → Text) → Text → Option Text → Option (Option Text) → Option Bool
unfolding signature_matches
validate_secret hmac body signature none = none
validate_secret hmac body signature (some none) = some true
validate_secret hmac body signature (some (some secret)) =
    some (signature_matches hmac body signature secret)

-- `none` is an exception of the secret's store.
unfoldable pub validate_signature :
    (Text → Text → Text)
    → Cipher
    → Draw
    → ℕ
    → Text
    → Option Text
    → WebexBot
    → List BotWebhookHmac
    → Option Bool × WebexBot × List BotWebhookHmac
unfolding effective_hmac_secret validate_secret
validate_signature hmac c d now body signature bot rows =
    let (secret, bot', rows') = effective_hmac_secret c d now bot rows in
    (validate_secret hmac body signature secret, bot', rows')

-- The setting `hmac_secret` of the configuration: missing, None or a text.
pub data HmacSetting : Type 0 where
  missing null : HmacSetting
  given : Text → HmacSetting

by_setting : HmacSetting → HmacMode × HmacSetting
unfolding strip
by_setting missing = (shared_db, missing)
by_setting null = (disabled, null)
by_setting (given raw) = if truthy (strip raw) then (pinned, given raw) else (disabled, null)

-- The first argument is a mode that the configuration names itself.
unfoldable pub classify_hmac : Option HmacMode → HmacSetting → HmacMode × HmacSetting
unfolding by_setting
classify_hmac (some mode) setting = (mode, setting)
classify_hmac none setting = by_setting setting

abbrev pub min_hmac_secret_chars : ℕ
min_hmac_secret_chars = 16

-- `none` is a ValueError.
long_enough : Text → Option (Option Text)
unfolding strip
long_enough secret =
    if ltb (length (strip secret)) min_hmac_secret_chars then none else some (some secret)

unfoldable pub validate_hmac : HmacMode → Option Text → Option (Option Text)
unfolding long_enough
validate_hmac pinned none = none
validate_hmac pinned (some secret) = long_enough secret
validate_hmac shared_db secret = some none
validate_hmac disabled secret = some none
