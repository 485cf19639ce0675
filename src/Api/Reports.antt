-- ===== src/Api/Reports.antt =====
-- web/src/api/reports.ts: the posture report.
use tlsentinel_server.Text.{codes}
use tlsentinel_server.Client.{Promise, api_get}
use tlsentinel_server.Types.Reports.{TlsPostureReport}

pub get_tls_posture_report : Promise TlsPostureReport
get_tls_posture_report = api_get (codes "/reports/tls-posture")
