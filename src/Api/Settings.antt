-- ===== src/Api/Settings.antt =====
-- web/src/api/settings.ts: settings and maintenance.
use tlsentinel_server.Common.{Bool, List, Option, none, some, [], ◌∷◌, ◌++◌}
use tlsentinel_server.Text.{Text, codes}
use tlsentinel_server.Text.Numbers.{ℤ}
use tlsentinel_server.Json.{str, num, bool, object, numbers}
use tlsentinel_server.Client.{Promise, api_get, api_post, api_put}

pub record AlertThresholdsResponse : Type 0 where
  pub thresholds : List ℤ

pub record ScanHistoryRetentionResponse : Type 0 where
  pub days : ℤ

pub record ScheduledJob : Type 0 where
  pub name : Text
  pub display_name : Text
  pub cron_expression : Text
  pub enabled : Bool
  pub last_run_at : Option Text
  pub last_run_status : Option Text

pub record PurgeScanHistoryResponse : Type 0 where
  pub deleted : ℤ

pub record AuditLogRetentionResponse : Type 0 where
  pub days : ℤ

pub record PurgeAuditLogsResponse : Type 0 where
  pub deleted : ℤ

pub record PurgeExpiryAlertsResponse : Type 0 where
  pub deleted : ℤ

pub record PurgeUnreferencedCertsResponse : Type 0 where
  pub deleted : ℤ

pub record RefreshRootStoresResponse : Type 0 where
  pub status : Text

pub get_alert_thresholds : Promise AlertThresholdsResponse
get_alert_thresholds = api_get (codes "/settings/alert-thresholds")

pub set_alert_thresholds : (thresholds : List ℤ) → Promise AlertThresholdsResponse
set_alert_thresholds thresholds =
    api_put (codes "/settings/alert-thresholds")
      (some (object ((codes "thresholds", some (numbers thresholds)) ∷ [])))

pub get_scan_history_retention : Promise ScanHistoryRetentionResponse
get_scan_history_retention = api_get (codes "/maintenance/scan-history-retention")

pub set_scan_history_retention : (days : ℤ) → Promise ScanHistoryRetentionResponse
set_scan_history_retention days =
    api_put (codes "/maintenance/scan-history-retention")
      (some (object ((codes "days", some (num days)) ∷ [])))

pub get_scheduled_jobs : Promise (List ScheduledJob)
get_scheduled_jobs = api_get (codes "/maintenance/scheduled-jobs")

pub update_scheduled_job :
    (name : Text) (cron_expression : Text) (enabled : Bool) → Promise ScheduledJob
update_scheduled_job name cron_expression enabled =
    api_put (codes "/maintenance/scheduled-jobs/" ++ name) (
      some (
        object (
          (codes "cronExpression", some (str cron_expression))
          ∷ (codes "enabled", some (bool enabled))
          ∷ [])))

pub run_purge_scan_history : Promise PurgeScanHistoryResponse
run_purge_scan_history = api_post (codes "/maintenance/run/purge-scan-history") none

pub get_audit_log_retention : Promise AuditLogRetentionResponse
get_audit_log_retention = api_get (codes "/maintenance/audit-log-retention")

pub set_audit_log_retention : (days : ℤ) → Promise AuditLogRetentionResponse
set_audit_log_retention days =
    api_put (codes "/maintenance/audit-log-retention")
      (some (object ((codes "days", some (num days)) ∷ [])))

pub run_purge_audit_logs : Promise PurgeAuditLogsResponse
run_purge_audit_logs = api_post (codes "/maintenance/run/purge-audit-logs") none

pub run_purge_expiry_alerts : Promise PurgeExpiryAlertsResponse
run_purge_expiry_alerts = api_post (codes "/maintenance/run/purge-expiry-alerts") none

pub run_purge_unreferenced_certs : Promise PurgeUnreferencedCertsResponse
run_purge_unreferenced_certs = api_post (codes "/maintenance/run/purge-unreferenced-certs") none

pub run_refresh_root_stores : Promise RefreshRootStoresResponse
run_refresh_root_stores = api_post (codes "/maintenance/run/refresh-root-stores") none
