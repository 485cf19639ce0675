-- ===== src/Api/Templates.antt =====
-- web/src/api/notificationTemplates.ts: notification templates.
use tlsentinel_server.Common.{Bool, List, Option, none, some, [], ◌∷◌, ◌++◌}
use tlsentinel_server.Text.{Text, codes}
use tlsentinel_server.Json.{str, object, nullable}
use tlsentinel_server.Client.{Promise, api_get, api_put, api_delete}

pub record TemplateVariable : Type 0 where
  pub name : Text
  pub description : Text

pub record NotificationTemplate : Type 0 where
  pub event_type : Text
  pub channel : Text
  pub label : Text
  pub subject : Option Text
  pub body : Text
  pub format : Text
  pub is_custom : Bool
  pub variables : List TemplateVariable

pub list_notification_templates : Promise (List NotificationTemplate)
list_notification_templates = api_get (codes "/notification-templates")

pub get_notification_template : (event_type : Text) (channel : Text) → Promise NotificationTemplate
get_notification_template event_type channel =
    api_get (codes "/notification-templates/" ++ (event_type ++ (codes "/" ++ channel)))

pub update_notification_template :
    (event_type : Text) (channel : Text) (subject : Option Text) (body : Text) (format : Text)
    → Promise NotificationTemplate
update_notification_template event_type channel subject body format =
    api_put (codes "/notification-templates/" ++ (event_type ++ (codes "/" ++ channel))) (
      some (
        object (
          (codes "subject", some (nullable str subject))
          ∷ (codes "body", some (str body))
          ∷ (codes "format", some (str format))
          ∷ [])))

pub reset_notification_template : (event_type : Text) (channel : Text) → Promise (Unit {0})
reset_notification_template event_type channel =
    api_delete (codes "/notification-templates/" ++ (event_type ++ (codes "/" ++ channel))) none
