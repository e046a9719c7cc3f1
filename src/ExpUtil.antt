-- ===== src/ExpUtil.antt =====
-- model/core/exp-util.cc: the text helpers that every reader of the program is built from.
pub mod Strings
pub mod Split
pub mod Numbers
pub mod Collections
pub mod Config
mod Tests
