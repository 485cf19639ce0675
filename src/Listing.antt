-- ===== src/Listing.antt =====
-- What the pages with a table share: their numbers of pages, and the rows that are selected.
pub mod Paging
pub mod Selection
pub mod Stores
mod Tests
