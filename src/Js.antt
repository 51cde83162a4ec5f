-- ===== src/Js.antt =====
-- The parts of the JavaScript language and its standard library that the packages rely on:
-- template strings, sorting of strings, `Map`, and `JSON.stringify`.
pub mod Text
pub mod JsMap
pub mod Json
pub mod Throws
