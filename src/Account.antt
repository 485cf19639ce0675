-- ===== src/Account.antt =====
-- The account pages on top of the fetch client: the password, the second factor and the way back
-- from single sign-on.
pub mod Password
pub mod TwoFactor
pub mod Callback
mod Tests
use tlsentinel_server.Common.{Bool, true, false}
use tlsentinel_server.Client.{Outcome, value, undefined, api_error, network_error, syntax_error}

-- Whether the promise of a call is fulfilled, and not rejected.
abbrev pub is_fulfilled : Outcome → Bool
is_fulfilled (value v) = true
is_fulfilled undefined = true
is_fulfilled (api_error status message) = false
is_fulfilled network_error = false
is_fulfilled syntax_error = false
