-- ===== src/Runtime.antt =====
-- src/runtime: the library that compiled programs call.
pub mod DuxList
pub mod DuxDict
pub mod DuxStr
pub mod Channel
pub mod Pool
