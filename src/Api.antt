-- ===== src/Api.antt =====
-- web/src/api: one function for each call of the server. A default argument of the source is an
-- argument here.
pub mod Auth
pub mod Totp
pub mod Users
pub mod Groups
pub mod Audit
pub mod ApiKeys
pub mod Endpoints
pub mod Tags
pub mod Certificates
pub mod RootStores
pub mod Scanners
pub mod Discovery
pub mod Settings
pub mod Mail
pub mod Templates
pub mod Reports
pub mod Search
pub mod Utils
pub mod Version
pub mod Queries
mod Tests
