-- ===== src/Go.antt =====
-- What the program uses of Go's standard library, over byte lists.
pub mod Strings
pub mod Paths
pub mod Case
pub mod Strconv
