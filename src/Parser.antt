-- ===== src/Parser.antt =====
-- The parser of src/parser.c, above its scanner.
pub mod Run
pub mod Steps
pub mod Values
pub mod Storage
pub mod World
pub mod Items
pub mod Packets
pub mod Loops
pub mod Containers
pub mod Blocks
pub mod Quoted
pub mod Quiet
pub mod Settles
