-- ===== src/Webex.antt =====
-- bots/plugins/webex_bot.py: the driver for Webex. Labels cleans the text of a message, Secret is the
-- HMAC secret and the test of a request, Hooks the webhooks at Webex, Rooms people and
-- rooms, Events what an event sets off.
pub mod Labels
pub mod Secret
pub mod Hooks
pub mod Rooms
pub mod Events
mod Tests
