-- ===== src/Api/ApiKeys.antt =====
-- web/src/api/apiKeys.ts: API keys.
use tlsentinel_server.Common.{List, Option, none, some, [], ◌∷◌, ◌++◌}
use tlsentinel_server.Text.{Text, codes}
use tlsentinel_server.Json.{str, object}
use tlsentinel_server.Client.{Promise, api_get, api_post, api_delete}

pub record ApiKey : Type 0 where
  pub id : Text
  pub name : Text
  pub prefix : Text
  pub last_used_at : Option Text
  pub created_at : Text

pub record CreatedApiKey : Type 0 where
  pub api_key : ApiKey
  pub open api_key use *
  pub token : Text

pub record AdminApiKey : Type 0 where
  pub api_key : ApiKey
  pub open api_key use *
  pub user_id : Text
  pub username : Text

pub list_api_keys : Promise (List ApiKey)
list_api_keys = api_get (codes "/me/api-keys")

pub create_api_key : (name : Text) → Promise CreatedApiKey
create_api_key name =
    api_post (codes "/me/api-keys") (some (object ((codes "name", some (str name)) ∷ [])))

pub delete_api_key : (id : Text) → Promise (Unit {0})
delete_api_key id = api_delete (codes "/me/api-keys/" ++ id) none

pub list_all_api_keys : Promise (List AdminApiKey)
list_all_api_keys = api_get (codes "/admin/api-keys")

pub revoke_api_key : (id : Text) → Promise (Unit {0})
revoke_api_key id = api_delete (codes "/admin/api-keys/" ++ id) none
