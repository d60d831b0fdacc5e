-- ===== src/Names.antt =====
-- The validity and the normal forms of block codes, frame codes, item names and table keys: the
-- first part of src/utils.c.
pub mod Utf16
pub mod Convert
pub mod Valid
