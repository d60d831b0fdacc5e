-- ===== src/Writer.antt =====
-- The writer of src/ciffile.c.
pub mod Fold
pub mod Text
pub mod Columns
