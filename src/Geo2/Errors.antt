-- ===== src/Geo2/Errors.antt =====
-- format.go: the errors that opening a file can give, without their texts.
pub data OpenError : Type 0 where
  bad_magic unsupported_version corrupt too_large language_missing : OpenError
