-- ===== src/TextBlock.antt =====
-- Text blocks from the writer to the parser: what `write_text` (src/ciffile.c) writes is what
-- `decode_text` (src/parser.c) reads.
pub mod Segments
pub mod Lines
pub mod RoundTrip
pub mod Total
