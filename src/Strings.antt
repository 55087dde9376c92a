-- ===== src/Strings.antt =====
-- What the code uses of Rust's text library: UTF-8, white space, decimal numbers. The standard
-- library is not part of the repository; these are models of its documented behaviour.
pub mod Decimal
pub mod Utf8
pub mod Split
pub mod Fields
pub mod Lines
