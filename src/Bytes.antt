-- ===== src/Bytes.antt =====
-- Go's strings and byte slices as lists of numbers below 256, with the standard library's routines
-- that the storage code uses on them: `strconv.FormatUint` and `ParseUint`, `strings.Repeat` and
-- `Split`, and `binary.BigEndian`.
mod Compare
pub mod Decimal
pub mod Word
unfoldable pub use Compare.*
