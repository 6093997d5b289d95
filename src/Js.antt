-- ===== src/Js.antt =====
-- The parts of the JavaScript runtime that ui/src uses: texts, sorting, encodeURIComponent, JSON
-- values. Texts are lists of Unicode scalar values; the program makes no unpaired surrogates.
pub mod Text
pub mod Sort
pub mod Uri
pub mod Caught
pub mod Base64
pub mod Json
pub mod Result
pub mod Value
