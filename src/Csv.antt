-- ===== src/Csv.antt =====
-- csvdb: the CSV source, from bytes of a file to rows of fields and numbers.
pub mod Number
pub mod Scan
pub mod Layout
pub mod Ranges
pub mod Rows
