-- ===== src/Api/Groups.antt =====
-- web/src/api/groups.ts: groups.
use tlsentinel_server.Common.{List, Option, none, some, [], ◌∷◌, ◌++◌}
use tlsentinel_server.Text.{Text, codes}
use tlsentinel_server.Text.Numbers.{ℤ, show_int}
use tlsentinel_server.Json.{Json, str, object, optional, nullable, texts}
use tlsentinel_server.Query.{to_query}
use tlsentinel_server.Client.{Promise, api_get, api_post, api_put, api_delete}
use tlsentinel_server.Types.Users.{Group, GroupList}

unfoldable pub list_groups : (page : ℤ) (page_size : ℤ) → Promise GroupList
list_groups page page_size = api_get (
    codes "/groups?"
    ++ (to_query ((codes "page", show_int page) ∷ (codes "page_size", show_int page_size) ∷ [])))

pub get_group : (id : Text) → Promise Group
get_group id = api_get (codes "/groups/" ++ id)

pub get_group_host_i_ds : (id : Text) → Promise (List Text)
get_group_host_i_ds id = api_get (codes "/groups/" ++ (id ++ (codes "/endpoints")))

-- The argument of `createGroup`.
pub record CreateGroupBody : Type 0 where
  pub name : Text
  pub description : Option (Option Text)
  pub host_ids : List Text

-- `JSON.stringify(req)`.
abbrev pub create_group_body_json : CreateGroupBody → Json
create_group_body_json r = object (
    (codes "name", some (str r.name))
    ∷ (codes "description", optional (nullable str) r.description)
    ∷ (codes "hostIds", some (texts r.host_ids))
    ∷ [])

pub create_group : (req : CreateGroupBody) → Promise Group
create_group req = api_post (codes "/groups") (some (create_group_body_json req))

-- The argument of `updateGroup`.
pub record UpdateGroupBody : Type 0 where
  pub name : Text
  pub description : Option (Option Text)
  pub host_ids : List Text

-- `JSON.stringify(req)`.
abbrev pub update_group_body_json : UpdateGroupBody → Json
update_group_body_json r = object (
    (codes "name", some (str r.name))
    ∷ (codes "description", optional (nullable str) r.description)
    ∷ (codes "hostIds", some (texts r.host_ids))
    ∷ [])

pub update_group : (id : Text) (req : UpdateGroupBody) → Promise Group
update_group id req = api_put (codes "/groups/" ++ id) (some (update_group_body_json req))

pub delete_group : (id : Text) → Promise (Unit {0})
delete_group id = api_delete (codes "/groups/" ++ id) none
