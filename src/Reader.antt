-- ===== src/Reader.antt =====
-- sjasm/reader.cpp: the lexical level of the assembler. A text is the list of its character codes up
-- to the terminating zero.
pub mod Chars
pub mod Literal
pub mod Outcome
pub mod Words
pub mod CharConst
pub mod Progress
pub mod Within
