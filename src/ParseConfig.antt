-- ===== src/ParseConfig.antt =====
-- parse_config/ParseConfig.hpp: an INI file read line by line into a map of maps, and queries on the
-- map and on the file. The two static variables are the arguments and results of the functions; a
-- file is its content, or `none` where it cannot be opened. A thrown text is an `Error` that holds
-- what the text is made of.
pub mod Dictionary
pub mod Errors
pub mod Checks
pub mod File
pub mod Query
pub mod Tests
