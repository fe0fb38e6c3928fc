-- ===== src/Text.antt =====
-- Go's strings as lists of bytes, and what the program uses of the packages `strings` and `net`.
-- A text is taken to be ASCII where the program asks for white space or for lower case.
mod Bytes
pub mod Cut
pub mod Host
pub mod Decimal
pub mod Order
unfoldable pub use Bytes.*
