-- ===== src/Bearer.antt =====
-- alerts/webhook_bearer.py: the bearer token of Jira's status webhooks.
pub mod Throttle
pub mod Validate
