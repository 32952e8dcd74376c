-- ===== src/Ldap.antt =====
-- lookup/plugins/ldap_ad.py: the lookup of people and teams in LDAP or Active Directory.
--
-- Ldap.PlatformIds reads the platform ids of an entry, Ldap.People the people, Ldap.Groups the members
-- of a group. The directory is a parameter: whether a connection is made, and what a search gives.
pub mod PlatformIds
pub mod People
pub mod Groups
