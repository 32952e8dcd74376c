-- ===== src/Webex/Hooks/Registered.antt =====
-- bots/plugins/webex_bot.py, register_bot_webhook: the webhooks that are there after a registration.
use thaum.Prelude.{◌≡◌, true, false, not, List, [], ◌∷◌, All}
use thaum.Text.{Text, text_eq}
use thaum.Table.{rows_where}
use thaum.Webex.Hooks.{Webhook, UrlLibrary, leads_to, Api}

-- No two webhooks share an id.
abbrev pub IsUniqueId : List Webhook → Type 0
IsUniqueId [] = Unit
IsUniqueId (wh ∷ hooks) = All (λ other. text_eq other.id wh.id ≡ false) hooks × IsUniqueId hooks

-- The deletion of each succeeds.
abbrev pub CanDelete : Api → List Webhook → Type 0
CanDelete api hooks = All (λ wh. api.deletes wh.id ≡ true) hooks

-- The webhooks that lead elsewhere, in order.
abbrev pub elsewhere : UrlLibrary → Text → List Webhook → List Webhook
elsewhere lib target hooks = rows_where (λ wh. not (leads_to lib target wh)) hooks

abbrev Apart : List Webhook → List Webhook → Type 0
Apart xs ys = All (λ y. All (λ x. text_eq x.id y.id ≡ false) xs) ys
