-- ===== src/Types/Paging.antt =====
-- web/src/types/api.ts: the page of a list.
use tlsentinel_server.Common.{List}
use tlsentinel_server.Text.Numbers.{ℤ}

pub record PaginatedList (A : Type 0) : Type 0 where
  pub items : List A
  pub page : ℤ
  pub page_size : ℤ
  pub total_count : ℤ
