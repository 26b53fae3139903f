-- ===== src/Std.antt =====
-- What the sources use of the C++ standard library: `std::string` and the conversions of numbers.
pub mod Maps
pub mod Strings
pub mod Numbers
pub mod Floating
