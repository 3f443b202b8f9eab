-- ===== src/Format.antt =====
-- internal/format/format.go: the byte-level parts of the GEO2 file format.
pub mod Header
pub mod Directory
pub mod Meta
pub mod RecordId
pub mod Layout
pub mod XLayout
pub mod Checksum
