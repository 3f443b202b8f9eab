-- ===== src/Examples.antt =====
-- Runs on small inputs, and the theorems at concrete inputs that meet their hypotheses.
mod Format
pub mod Merge
mod Lookup
pub mod Build
mod Open
mod Ipv6
mod Csv
pub mod Builder
mod File
mod Rows
