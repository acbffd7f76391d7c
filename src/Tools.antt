-- ===== src/Tools.antt =====
-- The command-line tools of tools/: what they send to a reader and what they print.
pub mod ReaderTest
pub mod SetAddress
