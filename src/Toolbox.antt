-- ===== src/Toolbox.antt =====
-- The pages under web/src/pages/toolbox, which work on certificates and requests in the browser.
pub mod Hex
pub mod Panel
pub mod Csr
pub mod Chain
mod Tests
use tlsentinel_server.Common.{ℕ}
