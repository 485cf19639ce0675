-- ===== src/Types/Tags.antt =====
-- web/src/types/api.ts: tags and their categories.
use tlsentinel_server.Common.{List, Option}
use tlsentinel_server.Text.{Text}

pub record Tag : Type 0 where
  pub id : Text
  pub category_id : Text
  pub name : Text
  pub description : Option Text
  pub created_at : Text

pub record TagCategory : Type 0 where
  pub id : Text
  pub name : Text
  pub description : Option Text
  pub created_at : Text

pub record CategoryWithTags : Type 0 where
  pub tag_category : TagCategory
  pub open tag_category use *
  pub tags : List Tag

pub record TagWithCategory : Type 0 where
  pub id : Text
  pub category_id : Text
  pub category_name : Text
  pub name : Text
  pub description : Option Text
