-- ===== src/Lib.antt =====
-- A model of the repository's own C++ components, most of them headers with one class each. The
-- components stand side by side; parse_config/ParseConfig.hpp calls parse_config/ProcessString.hpp.
--
-- Prelude        lists, strings, character tests of the C library, and searches in lists
-- NetworkBuffer  network_buffer/NetworkBuffer.h and NetworkBuffer.cpp
-- StringHelper   string_helper/StringHelper.hpp
-- ProcessString  parse_config/ProcessString.hpp
-- ParseConfig    parse_config/ParseConfig.hpp
-- Algorithm      algorithm/Algorithm.ipp
-- Csv            csv/CSV.hpp
-- BinOctHexDec   bin_oct_hex_dec/BinOctHexDec.hpp
-- Time           checkTM of time/Time.hpp
-- AnyType        any_type/AnyType.hpp
-- FixedThreadPool  fixed_thread_pool/FixedThreadPool.hpp
-- Logger         logger/Logger.hpp
-- OperatingMode  process_markdown/operatingMode.cpp, the functions on bold text, line ends and headers
--
-- A function of the model has the name of the function of the class, in small letters with
-- underscores: `append_uint8` is `appendUint8`, `rm_space_in_beg_and_end` is `rmSpaceInBegAndEnd`. A
-- string is the list of its bytes, each below 256. A member function that changes its object or its
-- reference argument returns the new value. An exception is `none` or an error value; undefined
-- behaviour, such as an access outside a string or through a null pointer, is a result of its own.
-- Input from `std::cin` and from a file is the list of bytes that is left.
--
-- NetworkBuffer: `NetworkBuffer` is a record of the three fields. Its storage is `none` for the null
-- pointer and otherwise a list of cells, where a cell that was never written is `none`. Sums of
-- `size_t` wrap at 2 ^ 64, an allocation of 2 ^ 63 bytes or more fails. `htons` and `htonl` are those
-- of a little-endian machine.
--
-- StringHelper: the groups of functions are the children Case, Pad, Classify, Strip, Extremum, Search,
-- Split and Lines. `Split`, `ExtractNum` and `Count` loop on fuel: the length of the string is enough for
-- the first two, since each round takes a character, and `Count` is stated for any fuel.
--
-- ProcessString: `extractNumFromString` and `spliceString` loop on fuel of one more than the length of
-- the string, since each round takes a character. The conversion of a text to a number, by
-- `operator>>`, is a parameter.
--
-- ParseConfig: the static map is the list of its entries in the order of `std::map`. A file is its
-- content, or `none` where it cannot be opened. Errors holds what is thrown, Dictionary the map,
-- Checks the two format checks, File parsing and printing, Query the functions that look a value up.
--
-- Algorithm: the type of the elements and its operators are parameters. The length is converted to an
-- `int32_t`: `on_front` sorts the elements below it, and `none` is an overflow of a signed sum or the throw of the
-- constructor of `tempArray`. The theorems have the length up to which none of this happens. A loop that goes through the
-- vector from an index is a function of the list from there on; the insertion sort cuts the vector at the
-- index of the outer loop and reads its front part from that index back, as the inner loop does. The Shell
-- sort writes into the vector by index. The recursion of the merge sort and the loops over segments and gaps
-- run on fuel: the length of the vector, or the first gap, is enough. Lengths and Rounds are about vectors that
-- are short enough, Order holds the order of the
-- result, and each sort has a module with its proof.
--
-- Csv: the numbers of lines and of columns are `int`s. A file is its bytes, and the operators << and >> of the element type are parameters, with what is used
-- of them as hypotheses of the round trip. Rows has the lines that are written, Reading and
-- RoundTrip how they are read, Unterminated a line that no newline ends.
--
-- BinOctHexDec: a number is below 2 ^ 64, so that 64 rounds of the loops that take digits off it are
-- enough. `to_double` rounds a natural number to the 53 bits of a `double`; a power from 2 ^ 1024 on is infinite, so
-- that the result of the conversion is undefined, `none`. The greatest size of the vector is an argument, above
-- which its constructor throws. Dec2Hex and Hex2Dec, which
-- call string streams, are not modelled.
--
-- Time: the fields of `struct tm` are integers of either sign; `none` is an overflow of `tm_year + 1900`. The functions that call the C time
-- library are not modelled.
--
-- AnyType: the free store is a list of blocks, which each operation takes and returns. A `double` is
-- given by its bits; the conversion of a `float` to a `double` is a parameter.
--
-- FixedThreadPool: `FixedThreadPool` is a record of the pool's variables, with where each thread and the
-- owner stand and how many calls of `enqueue` have still to notify. `Step` is the relation of what a
-- thread, a client or the destructor does at once: a part of the code that holds the lock, a notification, a
-- spurious wake-up, the end of a task, a join. A `Run` is any sequence of steps with the events that
-- they are. A task is a number, what it computes and its future are not modelled, and that it ends is
-- a step that may come at any time. Threads holds properties of the threads, Invariant the invariant,
-- Order, Busy and Drain what becomes of the tasks, Shutdown and Cost that the pool goes on and ends.
--
-- Logger: a `Site` is a logger and the files, which are a map from base name and number to content. The
-- functions of a module logger are `module_trace` and so on; the global ones, in Globals, have the same bodies
-- in the source and are the same functions of a site whose logger is the static one. What `vsnprintf`
-- formats is the argument `text`, of which 999 bytes reach the file. A call that throws leaves what it
-- did until then. The lock makes each call one step. Window is what is promised of the files, Rotation,
-- Ready, Writing, Creation and Init lead to Refine, and Bounds and Failure have the sizes of the files
-- and the lines that are lost. The functions under CPLUSPLUS_STYLE are not compiled.
--
-- OperatingMode: an article is the bytes of its file, and a directory the list of its articles. A loop of
-- searches goes through the text that is left, on fuel of its length, which is enough since each round takes
-- a mark. The other functions of process_markdown, on a database, images, fonts and with regular
-- expressions, are not modelled. Bold has one article, Articles the directory, Spaces the two spaces in front
-- of each line end, Header the headers that addPostHeader
-- and addMaXiangHeader put in front, with the name of the article without its folder as an argument.
--
-- Not modelled: third-party code (cinatra, sqlite3pp, tinyxml2 in xml), programs made of calls of the
-- file system, the shell, sockets or a database (file_operation, file_transfer, local_ip, shell,
-- rename_file_by_time, code_comment), floating-point code (line, intetral), and
-- components without logic of their own (raii, my_exp).
pub mod Algorithm
pub mod AnyType
pub mod BinOctHexDec
pub mod Csv
pub mod FixedThreadPool
pub mod Logger
pub mod NetworkBuffer
pub mod OperatingMode
pub mod ParseConfig
pub mod Prelude
pub mod ProcessString
pub mod StringHelper
pub mod Time
