-- ===== src/Api/Tags.antt =====
-- web/src/api/tags.ts: tags.
use tlsentinel_server.Common.{List, Option, none, some, [], ◌∷◌, ◌++◌}
use tlsentinel_server.Text.{Text, codes}
use tlsentinel_server.Json.{str, object, optional, nullable, texts}
use tlsentinel_server.Client.{Promise, api_get, api_post, api_put, api_delete}
use tlsentinel_server.Types.Tags.{CategoryWithTags, Tag, TagCategory, TagWithCategory}

pub list_tag_categories : Promise (List CategoryWithTags)
list_tag_categories = api_get (codes "/tags/categories")

pub create_tag_category : (name : Text) (description : Option Text) → Promise TagCategory
create_tag_category name description = api_post (codes "/tags/categories") (
    some (
      object
        ((codes "name", some (str name)) ∷ (codes "description", optional str description) ∷ [])))

pub update_tag_category :
    (category_id : Text) (name : Text) (description : Option (Option Text)) → Promise TagCategory
update_tag_category category_id name description =
    api_put (codes "/tags/categories/" ++ category_id) (
      some (
        object (
          (codes "name", some (str name))
          ∷ (codes "description", optional (nullable str) description)
          ∷ [])))

pub delete_tag_category : (category_id : Text) → Promise (Unit {0})
delete_tag_category category_id = api_delete (codes "/tags/categories/" ++ category_id) none

pub create_tag : (category_id : Text) (name : Text) (description : Option Text) → Promise Tag
create_tag category_id name description = api_post (codes "/tags") (
    some (
      object (
        (codes "categoryId", some (str category_id))
        ∷ (codes "name", some (str name))
        ∷ (codes "description", optional str description)
        ∷ [])))

pub update_tag : (tag_id : Text) (name : Text) (description : Option (Option Text)) → Promise Tag
update_tag tag_id name description = api_put (codes "/tags/" ++ tag_id) (
    some (
      object (
        (codes "name", some (str name))
        ∷ (codes "description", optional (nullable str) description)
        ∷ [])))

pub delete_tag : (tag_id : Text) → Promise (Unit {0})
delete_tag tag_id = api_delete (codes "/tags/" ++ tag_id) none

pub get_endpoint_tags : (endpoint_id : Text) → Promise (List TagWithCategory)
get_endpoint_tags endpoint_id = api_get (codes "/endpoints/" ++ (endpoint_id ++ (codes "/tags")))

pub set_endpoint_tags : (endpoint_id : Text) (tag_ids : List Text) → Promise (Unit {0})
set_endpoint_tags endpoint_id tag_ids =
    api_put (codes "/endpoints/" ++ (endpoint_id ++ (codes "/tags")))
      (some (object ((codes "tagIds", some (texts tag_ids)) ∷ [])))
