-- ===== src/Txt.antt =====
-- pkg/txt: clipping, words and keywords, numbers in text.
pub mod Unicode
pub mod Clip
pub mod Order
pub mod Title
pub mod Words
mod Tests
