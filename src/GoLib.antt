-- ===== src/GoLib.antt =====
-- What the program uses of Go's standard library: strings, strconv, path and hash/fnv.
pub mod Strings
pub mod Decimal
pub mod FilePath
pub mod Fnv
