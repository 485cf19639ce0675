-- ===== src/TagColors/Tests.antt =====
-- An id, on which the theorem is used.
use tlsentinel_server.Common.{some, ◌≡◌, refl}
use tlsentinel_server.Text.{codes}
use tlsentinel_server.TagColors.{add, subtract, shift_5, category_hash, category_color}

-- ((57 * 31 + 102) * 31) + 51 is 57990.
blue : category_color (codes "9f3") ≡ some (codes "bg-blue-600/80 text-white")
unfolding category_color category_hash add subtract shift_5
blue = refl
