-- ===== src/Schema.antt =====
-- internal/schema: form definitions (types.go), templates (template.go), the parsing of a submission
-- (parser.go) and the reading of definitions (loader.go).
pub mod Types
pub mod Templates
pub mod Access
pub mod Fields
pub mod Forms
pub mod Loader
