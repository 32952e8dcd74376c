-- ===== src/Atlassian.antt =====
-- lookup/plugins/atlassian.py: the lookup of people and teams in Atlassian Cloud.
--
-- Atlassian.Teams preloads the teams, Atlassian.Members fetches the members of one, Atlassian.People
-- looks people up. The answers of the HTTP requests are parameters.
pub mod Teams
pub mod Members
pub mod People
mod Tests
