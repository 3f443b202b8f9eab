-- ===== src/Geo2.antt =====
-- geo2.go: the validation of a GEO2 input before it is used.
pub mod Errors
pub mod CheckDirectory
pub mod CheckLengths
pub mod CheckStrings
pub mod CheckRecords
pub mod CheckIpv6
pub mod CheckExtensions
pub mod CheckIpv4
pub mod Parse
