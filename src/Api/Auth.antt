-- ===== src/Api/Auth.antt =====
-- web/src/api/auth.ts: signing in.
use tlsentinel_server.Common.{some}
use tlsentinel_server.Text.{codes}
use tlsentinel_server.Client.{Promise, api_post}
use tlsentinel_server.Types.Users.{LoginRequest, LoginResponse, login_request_json}

pub login : (req : LoginRequest) → Promise LoginResponse
login req = api_post (codes "/auth/login") (some (login_request_json req))
