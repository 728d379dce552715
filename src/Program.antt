-- ===== src/Program.antt =====
-- cmd/web-form/main.go, internal/captcha: the program that puts the parts together.
pub mod Turnstile
pub mod Users
pub mod Settings
pub mod Runs
pub mod Login
pub mod Startup
pub mod Router
pub mod Running
pub mod Storing
pub mod Notifying
