-- ===== src/Encoding.antt =====
-- What the program takes from Rust's standard library to read, write and look up text: the check that
-- bytes are UTF-8, decimal numbers of the word size, trimming, sorting, and hash maps with text keys.
pub mod Utf8
pub mod Decimal
pub mod Trim
pub mod TextMap
pub mod Split
pub mod Affix
pub mod Sort
