-- ===== src/Examples.antt =====
-- The properties on concrete inputs, with services that run in memory.
mod World
mod Ldap
mod Tables
mod Users
mod Services
mod Records
mod Deletion
mod Registration
mod Requests
mod Endpoints
mod Credentials
mod Network
mod Jobs
mod Mail
mod Sorting
mod Routing
