-- ===== src/Text.antt =====
-- The parts of the standard library that read and write text: UTF-8 and decimal numbers.
pub mod Utf8
pub mod Decimal
pub mod Leading
pub mod Lines
pub mod Trim
pub mod Float
