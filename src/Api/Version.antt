-- ===== src/Api/Version.antt =====
-- web/src/api/version.ts: build information.
use tlsentinel_server.Text.{codes}
use tlsentinel_server.Client.{Promise, api_get}
use tlsentinel_server.Types.Reports.{BuildInfo}

pub get_version : Promise BuildInfo
get_version = api_get (codes "/version")
