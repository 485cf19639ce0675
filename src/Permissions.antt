-- ===== src/Permissions.antt =====
-- web/src/lib/permissions.ts: the permissions of each role, and the test of one.
mod Tests
use tlsentinel_server.Common.{
  Bool, true, false, ◌&&◌, ◌||◌, List, [], ◌∷◌, Option, none, some, ◌≡◌, ◌≢◌, ◌↔◌, refl, sym, ap,
  ◌∙◌, ◌⊎◌, arith, any, if◌then◌else◌,
}
use mathlib.Core.Option.{some-injective}
use tlsentinel_server.Text.{Text, codes, text_eq, text_eq_iff, text_eq_refl}

pub data Perm : Type 0 where
  endpoints_view endpoints_edit certs_view certs_edit self_access scanners_view scanners_edit : Perm
  users_view users_edit users_credentials api_keys_admin groups_view groups_edit : Perm
  settings_view settings_edit tags_view tags_edit logs_view maintenance : Perm
  discovery_view discovery_edit : Perm

-- The constants of `PERM`.
abbrev pub perm : Perm → Text
perm endpoints_view = codes "endpoints:view"
perm endpoints_edit = codes "endpoints:edit"
perm certs_view = codes "certs:view"
perm certs_edit = codes "certs:edit"
perm self_access = codes "self:access"
perm scanners_view = codes "scanners:view"
perm scanners_edit = codes "scanners:edit"
perm users_view = codes "users:view"
perm users_edit = codes "users:edit"
perm users_credentials = codes "users:credentials"
perm api_keys_admin = codes "apikeys:admin"
perm groups_view = codes "groups:view"
perm groups_edit = codes "groups:edit"
perm settings_view = codes "settings:view"
perm settings_edit = codes "settings:edit"
perm tags_view = codes "tags:view"
perm tags_edit = codes "tags:edit"
perm logs_view = codes "logs:view"
perm maintenance = codes "maintenance"
perm discovery_view = codes "discovery:view"
perm discovery_edit = codes "discovery:edit"

abbrev operator_perms : List Text
operator_perms =
    perm endpoints_view
    ∷ perm endpoints_edit
    ∷ perm certs_view
    ∷ perm scanners_view
    ∷ perm users_view
    ∷ perm groups_view
    ∷ perm settings_view
    ∷ perm tags_view
    ∷ perm tags_edit
    ∷ perm logs_view
    ∷ perm maintenance
    ∷ perm discovery_view
    ∷ perm discovery_edit
    ∷ perm self_access
    ∷ []

abbrev viewer_perms : List Text
viewer_perms =
    perm endpoints_view
    ∷ perm certs_view
    ∷ perm groups_view
    ∷ perm tags_view
    ∷ perm discovery_view
    ∷ perm self_access
    ∷ []

-- The names that an object literal inherits: the value under them is no array.
abbrev pub inherited : List Text
inherited =
    codes "constructor"
    ∷ codes "hasOwnProperty"
    ∷ codes "isPrototypeOf"
    ∷ codes "toString"
    ∷ codes "propertyIsEnumerable"
    ∷ codes "toLocaleString"
    ∷ codes "valueOf"
    ∷ codes "__proto__"
    ∷ codes "__defineGetter__"
    ∷ codes "__defineSetter__"
    ∷ codes "__lookupGetter__"
    ∷ codes "__lookupSetter__"
    ∷ []

pub includes : Text → List Text → Bool
includes p perms = any (λ q. text_eq q p) perms

-- `rolePermissions[role] ?? []`; `none` is a value with no method `includes`.
pub role_permissions : Text → Option (List Text)
role_permissions role =
    if text_eq role (codes "admin")
    then some (codes "*" ∷ [])
    else if text_eq role (codes "operator")
    then some operator_perms
    else if text_eq role (codes "viewer")
    then some viewer_perms
    else if any (text_eq role) inherited
    then none
    else some []

-- `none` is the TypeError of calling a method that is not there.
unfoldable pub has_permission : Text → Text → Option Bool
unfolding role_permissions includes
has_permission role p = elim (role_permissions role) [
  | none ↦ none
  | some perms ↦ some (includes (codes "*") perms || includes p perms)
]

viewer_in_operator : (p : Text) → includes p viewer_perms ≡ true → includes p operator_perms ≡ true
unfolding includes
viewer_in_operator p h = ground arith

has_permission-admin : (p : Text) → has_permission (codes "admin") p ≡ some true
unfolding has_permission text_eq
has_permission-admin p = refl

has_permission-operator :
    (p : Text) → has_permission (codes "operator") p ≡ some (includes p operator_perms)
unfolding has_permission text_eq
has_permission-operator p = refl

has_permission-viewer :
    (p : Text) → has_permission (codes "viewer") p ≡ some (includes p viewer_perms)
unfolding has_permission text_eq
has_permission-viewer p = refl

-- Whatever the permission, `admin` has it, and `operator` has it if `viewer` does.
pub has_permission-hierarchy :
    (p : Text)
    → (has_permission (codes "admin") p ≡ some true)
      × (has_permission (codes "viewer") p ≡ some true
          → has_permission (codes "operator") p ≡ some true)
has_permission-hierarchy p = (
  has_permission-admin p,
  λ h.
      let granted : includes p viewer_perms ≡ true =
        some-injective _ _ (sym (has_permission-viewer p) ∙ h) in
      has_permission-operator p ∙ ap some (viewer_in_operator p granted),
)

-- Only the three roles have a permission, and the test throws for no role but those that an object
-- inherits as a property.
pub has_permission-roles :
    (role p : Text)
    → (has_permission role p ≡ some true
        → (role ≡ codes "admin") ⊎ (role ≡ codes "operator") ⊎ (role ≡ codes "viewer"))
      × (has_permission role p ≡ none → any (text_eq role) inherited ≡ true)
unfolding has_permission role_permissions includes
has_permission-roles role p = (
  λ h. ground (
    arith,
    text_eq_iff role (codes "admin"),
    text_eq_iff role (codes "operator"),
    text_eq_iff role (codes "viewer"),
  ),
  λ h. ground arith,
)
