-- ===== src/Js.antt =====
-- What the source uses of JavaScript: texts, numbers, UTF-8 and JSON.
pub mod Text
pub mod Number
pub mod Utf8
pub mod Json
pub mod Outcome
pub mod BigInt
pub mod Task
pub mod Uri
mod Tests
