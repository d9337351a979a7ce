-- ===== src/Go/Strings.antt =====
-- Package `strings`. White space is the ASCII white space; the program's inputs are directives,
-- labels and file names.
mod Defs
mod Laws
unfoldable pub use Defs.*
pub use Laws.*
