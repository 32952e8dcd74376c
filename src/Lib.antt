-- ===== src/Lib.antt =====
-- Thaum, a bot server that opens chat rooms for incidents and pages the people on call: the parts of
-- it that decide something, and what they guarantee.
--
-- The program is a Flask application of several worker processes over one database. A bot hears a
-- command in a chat, the identity cache says who the responders are, an alert plugin (Jira Service
-- Management) pages them, and Jira's webhooks report back into the room. The workers elect a leader
-- that prepares the database at the start and repeats maintenance tasks. An administrator sets the
-- log level of all workers by a signed request.
--
-- Prelude, Text, Table and Dict hold what the others share: numbers and lists, Python's `str` as
-- the list of its code points, a database table as the list of its rows with the queries of
-- SQLAlchemy, and `dict` as an association list.
--
-- Identity (thaum/types.py): ThaumPerson, ThaumTeam with get_members, RespondersList with `+` and
-- get_responders. Alerts (alerts/base.py): the short ids.
-- Jira (alerts/plugins/jira): Jira.Mapping is mapping_store.py over the table of models.py, with
-- upsert_pending_row, apply_create_webhook and the lookups; Jira.Payload is payload.py without its
-- HTTP request; Jira.Webhook is handle_jira_status_webhook of status_webhook.py, whole; Jira.Plugin is
-- trigger_alert and acknowledge_alert of plugin.py, Jira.Responding the responders of an alert there;
-- Jira.Teams is teams.py and Jira.Users users.py, without their HTTP requests.
-- Lookup (lookup/base.py over the tables of lookup/models.py): Lookup.People is merge_person and
-- the reading of people, Lookup.Teams is get_team_by_name, get_team_by_id, cache_team, merge_team
-- and lookup_team_members, Lookup.Responders is resolve_responder_refs.
-- Ldap (lookup/plugins/ldap_ad.py): Ldap.PlatformIds reads the platform ids of an entry, Ldap.People
-- looks people up in the cache of Lookup and then in the directory, Ldap.Groups fetches the members of
-- a group. Atlassian (lookup/plugins/atlassian.py): Atlassian.Teams is the preload of the teams,
-- Atlassian.Members the accounts of a team, Atlassian.People the lookups of people.
-- Leader: Leader.Barrier is the row of thaum/leader_init.py, the leader's branch of
-- run_leader_bootstrap_phase in thaum/leader_bootstrap.py and wait_for_leader_init_barrier;
-- Leader.Service is the registry, the rounds and the loop of thaum/leader_service.py.
-- Admin: Admin.Post is thaum/admin_log_level.py, Admin.LogLevel the part of log_setup.py that names
-- and applies levels.
-- Bearer (alerts/webhook_bearer.py): the throttle of the expiry warning and the test of a token.
-- Secrets (thaum/bot_webhook_state.py): the HMAC secrets of the bots, ensured by workers that race and
-- re-encrypted in batches. Vault (thaum/database_crypto.py): the rows of the keys; Vault.Running is the
-- process that writes under a key, with rotation and catch-up, and Vault.Running.Tasks every sequence of
-- the leader's tasks on them (thaum/builtin_leader_tasks.py). A rotation or catch-up uses Secrets.
-- Engine (thaum/engine.py): create_incident_room, its effects on the chat and the alert plugin in
-- order.
-- Commands (thaum/handlers.py): Commands.Patterns are the regular expressions, Commands.Card the card
-- that asks for a summary, Commands.Handlers the commands, their registration and what a message or a
-- submitted card does. They run on Engine and Routes.
-- Routes: hears of bots/base.py and the choice of the handler in handle_event of
-- bots/plugins/webex_bot.py.
-- Webex (bots/plugins/webex_bot.py): Webex.Labels is the text that is left of a message without the
-- bot's names, Webex.Secret the secret of a worker with its cache and the test of a signature,
-- Webex.Hooks the registration and the probe of the webhooks, Webex.Rooms the rooms and people,
-- Webex.Events the events, up to Commands. It uses Secrets and Lookup.
-- Config: the normalisations of thaum/types.py and the alert settings of bots/base.py. Database: the
-- URL of the database (thaum/db_bootstrap.py).
--
-- A table or another state goes into an operation and comes out of it. `none` as a result is an
-- exception that leaves the operation, with the transaction rolled back. Workers that share a table
-- are sequences of operations on it: each of the source's transactions is one step, and where it
-- meets another worker's row (an insertion that fails) that is an argument of the step. A clock that
-- is read is an argument, one for each reading that can differ, in the unit that the file names.
-- Loops over the time (the wait of a follower, the loop of the leader) run over the list of what
-- they meet, so no fuel is needed but for the digits of a number, where the number itself is enough
-- (each digit divides it by ten), and for the pages of Atlassian.Teams and Atlassian.Members, one unit
-- a page: the server decides whether they end.
--
-- Parameters stand for what other code supplies: template rendering, the election, HTTP, the
-- directory of a lookup plugin, difflib's close matches, base64, JSON, SHA-256, HMAC and the parser
-- of a time stamp. Not modelled: the log, the lengths of columns, threads, the failures of a database
-- unless they are an argument,
-- the validation of settings by pydantic, plugin loading and the scripts.
pub mod Prelude
pub mod Text
pub mod Table
pub mod Dict
pub mod Identity
pub mod Alerts
pub mod Jira
pub mod Lookup
pub mod Leader
pub mod Admin
pub mod Config
pub mod Database
pub mod Ldap
pub mod Atlassian
pub mod Bearer
pub mod Secrets
pub mod Vault
pub mod Webex
pub mod Engine
pub mod Routes
pub mod Commands
