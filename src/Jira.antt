-- ===== src/Jira.antt =====
-- alerts/plugins/jira: the alert plugin for Jira Service Management.
pub mod Mapping
pub mod Payload
pub mod Webhook
pub mod Plugin
pub mod Teams
pub mod Users
pub mod Responding
