-- ===== src/Wire.antt =====
-- The primitive encodings: afkak/_util.py over Python's `struct` and its text codecs.
pub mod Struct
pub mod Reader
pub mod Text
pub mod Strings
