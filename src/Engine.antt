-- ===== src/Engine.antt =====
-- internal/engine: the handler of a form (form.go), the mux of all forms and the list (server.go).
pub mod Config
pub mod Access
pub mod Render
pub mod Submit
pub mod Serve
pub mod Server
