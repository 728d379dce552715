-- ===== src/Utils.antt =====
-- internal/utils: `Uniq` and `Set` of utils.go, `Quote` of strings.go.
pub mod Sets
pub mod Quote
pub mod Functions
