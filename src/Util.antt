-- ===== src/Util.antt =====
-- include/utilities.hh and src/utilities.cpp, the functions of `namespace util`.
pub mod Tokens
pub mod Trim
pub mod Escape
pub mod Ports
pub mod MapText
pub mod Tests
