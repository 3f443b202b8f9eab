-- ===== src/Build.antt =====
-- internal/build: the builder, from address ranges and records to the sections of a GEO2 file.
pub mod Blocks
pub mod Strings
pub mod PackRecord
pub mod Assemble
pub mod Encode
pub mod Options
pub mod Builder
pub mod FinishBuild
pub mod Record
pub mod Merge4
pub mod Merge6
pub mod Encode6
pub mod XTable
pub mod Encode4
pub mod EncodeStrings
