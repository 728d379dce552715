-- ===== src/Golang.antt =====
-- What the program uses of Go's standard library, over strings as lists of runes.
pub mod Strings
pub mod Strconv
pub mod Times
pub mod Urls
pub mod Paths
