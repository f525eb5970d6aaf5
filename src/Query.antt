-- ===== src/Query.antt =====
-- The Query page and the checks of its input: go/cmd/sobs/sql_validate.go and regex_validate.go.
pub mod Difflib
pub mod Validate
pub mod Regex
