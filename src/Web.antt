-- ===== src/Web.antt =====
-- internal/web/web.go: a request with its messages, its session and what is written in answer.
pub mod Requests
pub mod Sessions
pub mod Guards
pub mod Pages
