-- ===== src/Api/Users.antt =====
-- web/src/api/users.ts: users and the signed-in user.
use tlsentinel_server.Common.{Bool, List, Option, none, some, [], ◌∷◌, ◌++◌}
use tlsentinel_server.Text.{Text, codes}
use tlsentinel_server.Text.Numbers.{ℤ, show_int}
use tlsentinel_server.Json.{Json, str, bool, object, optional, nullable, texts}
use tlsentinel_server.Query.{set_all, to_query}
use tlsentinel_server.Client.{Promise, api_get, api_post, api_put, api_patch, api_delete}
use tlsentinel_server.Types.Tags.{TagWithCategory}
use tlsentinel_server.Types.Users.{User, UserList}

unfoldable pub list_users :
    (page : ℤ) (page_size : ℤ) (search : Text) (role : Text) (provider : Text) (sort : Text)
    → Promise UserList
list_users page page_size search role provider sort = api_get (
    codes "/users?"
    ++ (to_query (
        set_all
          ((codes "search", search)
            ∷ (codes "role", role)
            ∷ (codes "provider", provider)
            ∷ (codes "sort", sort)
            ∷ [])
          ((codes "page", show_int page) ∷ (codes "page_size", show_int page_size) ∷ []))))

pub get_user : (id : Text) → Promise User
get_user id = api_get (codes "/users/" ++ id)

-- The argument of `createUser`.
pub record CreateUserBody : Type 0 where
  pub username : Text
  pub password : Option Text
  pub role : Text
  pub provider : Text
  pub notify : Bool
  pub first_name : Option (Option Text)
  pub last_name : Option (Option Text)
  pub email : Option (Option Text)

-- `JSON.stringify(req)`.
abbrev pub create_user_body_json : CreateUserBody → Json
create_user_body_json r = object (
    (codes "username", some (str r.username))
    ∷ (codes "password", optional str r.password)
    ∷ (codes "role", some (str r.role))
    ∷ (codes "provider", some (str r.provider))
    ∷ (codes "notify", some (bool r.notify))
    ∷ (codes "firstName", optional (nullable str) r.first_name)
    ∷ (codes "lastName", optional (nullable str) r.last_name)
    ∷ (codes "email", optional (nullable str) r.email)
    ∷ [])

pub create_user : (req : CreateUserBody) → Promise User
create_user req = api_post (codes "/users") (some (create_user_body_json req))

-- The argument of `updateUser`.
pub record UpdateUserBody : Type 0 where
  pub username : Text
  pub role : Text
  pub provider : Text
  pub notify : Bool
  pub first_name : Option (Option Text)
  pub last_name : Option (Option Text)
  pub email : Option (Option Text)

-- `JSON.stringify(req)`.
abbrev pub update_user_body_json : UpdateUserBody → Json
update_user_body_json r = object (
    (codes "username", some (str r.username))
    ∷ (codes "role", some (str r.role))
    ∷ (codes "provider", some (str r.provider))
    ∷ (codes "notify", some (bool r.notify))
    ∷ (codes "firstName", optional (nullable str) r.first_name)
    ∷ (codes "lastName", optional (nullable str) r.last_name)
    ∷ (codes "email", optional (nullable str) r.email)
    ∷ [])

pub update_user : (id : Text) (req : UpdateUserBody) → Promise User
update_user id req = api_put (codes "/users/" ++ id) (some (update_user_body_json req))

pub set_user_enabled : (id : Text) (enabled : Bool) → Promise User
set_user_enabled id enabled =
    api_patch (codes "/users/" ++ (id ++ (codes "/enabled")))
      (some (object ((codes "enabled", some (bool enabled)) ∷ [])))

pub change_password : (id : Text) (password : Text) → Promise (Unit {0})
change_password id password =
    api_patch (codes "/users/" ++ (id ++ (codes "/password")))
      (some (object ((codes "password", some (str password)) ∷ [])))

pub delete_user : (id : Text) → Promise (Unit {0})
delete_user id = api_delete (codes "/users/" ++ id) none

pub reset_user_totp : (id : Text) → Promise (Unit {0})
reset_user_totp id = api_delete (codes "/users/" ++ (id ++ (codes "/totp"))) none

pub get_me : Promise User
get_me = api_get (codes "/me")

-- The argument of `updateMe`.
pub record UpdateMeBody : Type 0 where
  pub notify : Bool
  pub first_name : Option (Option Text)
  pub last_name : Option (Option Text)
  pub email : Option (Option Text)

-- `JSON.stringify(req)`.
abbrev pub update_me_body_json : UpdateMeBody → Json
update_me_body_json r = object (
    (codes "notify", some (bool r.notify))
    ∷ (codes "firstName", optional (nullable str) r.first_name)
    ∷ (codes "lastName", optional (nullable str) r.last_name)
    ∷ (codes "email", optional (nullable str) r.email)
    ∷ [])

pub update_me : (req : UpdateMeBody) → Promise User
update_me req = api_put (codes "/me") (some (update_me_body_json req))

pub change_my_password : (current_password : Text) (new_password : Text) → Promise (Unit {0})
change_my_password current_password new_password = api_patch (codes "/me/password") (
    some (
      object (
        (codes "currentPassword", some (str current_password))
        ∷ (codes "newPassword", some (str new_password))
        ∷ [])))

pub record CalendarToken : Type 0 where
  pub calendar_token : Text

pub rotate_calendar_token : Promise CalendarToken
rotate_calendar_token = api_post (codes "/me/calendar-token") (some (object []))

pub get_my_tag_subscriptions : Promise (List TagWithCategory)
get_my_tag_subscriptions = api_get (codes "/me/tag-subscriptions")

pub set_my_tag_subscriptions : (tag_ids : List Text) → Promise (List TagWithCategory)
set_my_tag_subscriptions tag_ids =
    api_put (codes "/me/tag-subscriptions")
      (some (object ((codes "tagIds", some (texts tag_ids)) ∷ [])))
