-- ===== src/Reader.antt =====
-- reader.go and ranges.go: the searches over the tables of an open database.
pub mod Bisect
pub mod Count
pub mod Search4
pub mod Range4
pub mod Lookup
pub mod Words128
pub mod Search6
pub mod Aliases
