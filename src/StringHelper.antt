-- ===== src/StringHelper.antt =====
-- string_helper/StringHelper.hpp: static functions on `std::string`. A string is the list of its
-- bytes; a function that changes its argument returns the new string. The children follow the
-- groups of functions: letter case, padding, searches, tests, stripping, extrema, splitting, lines.
pub mod Case
pub mod Pad
pub mod Classify
pub mod Strip
pub mod Extremum
pub mod Search
pub mod Split
pub mod Lines
pub mod Tests
