-- ===== src/Types.antt =====
-- web/src/types/api.ts: the shapes of what the client sends and receives. `number` is an integer,
-- `T | null` an option, and a field that may be left out is an option too.
pub mod Paging
pub mod Users
pub mod Tags
pub mod Endpoints
pub mod Requests
pub mod Certificates
pub mod Scanners
pub mod Reports
