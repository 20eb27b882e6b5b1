-- ===== src/Js.antt =====
-- The part of JavaScript that the program computes with: numbers, JSON values, text tests, and the
-- functions of the runtime that are taken as they are.
pub mod Number
pub mod Json
pub mod Text
pub mod Runtime
pub mod Result
