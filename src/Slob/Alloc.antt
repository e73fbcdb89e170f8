-- ===== src/Slob/Alloc.antt =====
-- `slob_alloc` against the abstract view.
pub mod OnePage
pub mod Search
pub mod Zero
pub mod Entry
