-- ===== src/Api/Audit.antt =====
-- web/src/api/audit.ts: the audit log.
use tlsentinel_server.Common.{[], ◌∷◌, ◌++◌}
use tlsentinel_server.Text.{Text, codes}
use tlsentinel_server.Text.Numbers.{ℤ, show_int}
use tlsentinel_server.Query.{set_all, to_query}
use tlsentinel_server.Client.{Promise, api_get}
use tlsentinel_server.Types.Users.{AuditLogList}

unfoldable pub list_audit_logs :
    (page : ℤ) (page_size : ℤ) (username : Text) (action : Text) → Promise AuditLogList
list_audit_logs page page_size username action = api_get (
    codes "/logs/audit?"
    ++ (to_query (
        set_all ((codes "username", username) ∷ (codes "action", action) ∷ [])
          ((codes "page", show_int page) ∷ (codes "page_size", show_int page_size) ∷ []))))
