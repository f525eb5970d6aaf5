-- ===== src/Store.antt =====
-- The database seam: go/internal/store.
pub mod Params
