-- ===== src/Json.antt =====
-- Values of JSON as the web client builds and reads them: the bodies of requests, the payload of a
-- token. Numbers are the integers.
use tlsentinel_server.Common.{Bool, List, [], ◌∷◌, Option, none, some, map, if◌then◌else◌}
use tlsentinel_server.Text.{Text, text_eq}
use tlsentinel_server.Text.Numbers.{ℤ}

mutual
  pub data Json : Type 0 where
    null : Json
    bool : Bool → Json
    num : ℤ → Json
    str : Text → Json
    arr : Items → Json
    obj : Fields → Json

  pub data Items : Type 0 where
    nil : Items
    cons : Json → Items → Items

  pub data Fields : Type 0 where
    end : Fields
    field : Text → Json → Fields → Fields

-- `o[k]` of an object's own properties; `none` is undefined.
unfoldable pub get : Text → Fields → Option Json
get k end = none
get k (field j v fs) = if text_eq j k then some v else get k fs

-- `v.k`: reading from null throws, which is `none`; other values that are no objects have no such
-- property.
unfoldable pub member : Text → Json → Option (Option Json)
unfolding get
member k null = none
member k (obj fs) = some (get k fs)
member k _ = some none

abbrev pub items : List Json → Items
items [] = nil
items (v ∷ vs) = cons v (items vs)

-- An object literal: `JSON.stringify` leaves out the fields whose value is undefined.
abbrev pub fields : List (Text × Option Json) → Fields
fields [] = end
fields ((k, none) ∷ fs) = fields fs
fields ((k, some v) ∷ fs) = field k v (fields fs)

abbrev pub object : List (Text × Option Json) → Json
object fs = obj (fields fs)

abbrev pub texts : List Text → Json
texts ts = arr (items (map str ts))

abbrev pub numbers : List ℤ → Json
numbers ns = arr (items (map num ns))

-- A field that may be undefined, one that may be null, and one that may be either.
abbrev pub optional {ℓ} : {A : Type ℓ} → (A → Json) → Option A → Option Json
optional f none = none
optional f (some a) = some (f a)

abbrev pub nullable {ℓ} : {A : Type ℓ} → (A → Json) → Option A → Json
nullable f none = null
nullable f (some a) = f a
