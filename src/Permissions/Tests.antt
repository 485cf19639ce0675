-- ===== src/Permissions/Tests.antt =====
-- The permission theorems at concrete roles.
use tlsentinel_server.Common.{false, some, ◌≡◌, refl}
use tlsentinel_server.Text.{codes, text_eq}
use tlsentinel_server.Permissions.{perm, endpoints_edit, has_permission}

viewer_cannot_edit : has_permission (codes "viewer") (perm endpoints_edit) ≡ some false
unfolding has_permission text_eq
viewer_cannot_edit = refl
