-- ===== src/NetworkBuffer.antt =====
-- network_buffer/NetworkBuffer.h and network_buffer/NetworkBuffer.cpp: a growable byte buffer that
-- integers are appended to in network byte order. `buffer_` is the allocation that it points to,
-- `none` for `nullptr`; a cell that was never written is `none`. Sizes are `size_t`, modulo 2 ^ 64.
pub mod Results
pub mod Append
pub mod Lifecycle
pub mod Run
pub mod Tests
use c_plus_plus.Prelude.{
  ℕ, ◌+◌, ◌-◌, ◌*◌, ◌/◌, ◌%◌, ◌^◌, ◌<◌, min, ap, Option, none, some, List, [], ◌∷◌, ◌++◌, map, ltb,
  leb, if◌then◌else◌, length, set, take, drop, replicate,
}
use c_plus_plus.Prelude.Chars.{Bytes}
use Results.{Outcome, ok, err, bad_alloc, undefined, ◌>>=◌}

abbrev pub Cells : Type 0
Cells = List (Option ℕ)

pub record NetworkBuffer : Type 0 where
  pub buffer : Option Cells
  pub size : ℕ
  pub capacity : ℕ

abbrev pub min_capacity : ℕ
min_capacity = 1024

-- A sum of two `size_t`.
abbrev pub add_size : ℕ → ℕ → ℕ
add_size a b = (a + b) % 2 ^ 64

-- `new char[n]`: an object is no larger than PTRDIFF_MAX bytes.
pub new_char : ℕ → Outcome Cells
new_char n = if ltb n (2 ^ 63) then ok (replicate n none) else err bad_alloc

-- The cells that a loop over `[p, p + n)` reads.
pub read : Option Cells → ℕ → Outcome Cells
read none n = if leb n 0 then ok [] else err undefined
read (some cells) n = if leb n (length cells) then ok (take n cells) else err undefined

-- `std::copy(source, p + i)`
pub write : Option Cells → ℕ → Cells → Outcome (Option Cells)
write none i source = if leb (length source) 0 then ok none else err undefined
write (some cells) i source =
    if leb (i + length source) (length cells)
    then ok (some (take i cells ++ (source ++ drop (i + length source) cells)))
    else err undefined

-- `NetworkBuffer(size_t capacity)`
pub create : ℕ → Outcome NetworkBuffer
create capacity =
    if leb capacity min_capacity
    then (do
      cells ← new_char min_capacity
      ok (record { buffer = some cells; size = 0; capacity = min_capacity }))
    else (do
      cells ← new_char capacity
      ok (record { buffer = some cells; size = 0; capacity = capacity }))

-- `NetworkBuffer(char* copiedCharBuffer, size_t length)`
pub create_from : Option Cells → ℕ → Outcome NetworkBuffer
create_from copied n =
    if leb n min_capacity
    then (do
      cells ← new_char min_capacity
      source ← read copied n
      buffer ← write (some cells) 0 source
      ok (record { buffer = buffer; size = n; capacity = min_capacity }))
    else (do
      cells ← new_char n
      source ← read copied n
      buffer ← write (some cells) 0 source
      ok (record { buffer = buffer; size = n; capacity = n }))

-- `deleteNetworkBuffer`, and the destructor.
pub delete_network_buffer : NetworkBuffer → NetworkBuffer
delete_network_buffer b = record b { buffer = none }

pub clear_network_buffer : NetworkBuffer → Outcome NetworkBuffer
clear_network_buffer b = do
  buffer ← write b.buffer 0 (replicate b.size (some 0))
  ok (record b { buffer = buffer; size = 0 })

pub copy_network_buffer : NetworkBuffer → NetworkBuffer → Outcome NetworkBuffer
copy_network_buffer b copied =
    if leb copied.size b.capacity
    then (do
      source ← read copied.buffer copied.size
      buffer ← write b.buffer 0 source
      ok (record b { buffer = buffer; size = copied.size }))
    else (do
      cells ← new_char copied.size
      source ← read copied.buffer copied.size
      buffer ← write (some cells) 0 source
      ok (record { buffer = buffer; size = copied.size; capacity = copied.size }))

-- `~NetworkBuffer`
abbrev pub destruct : NetworkBuffer → NetworkBuffer
destruct b = record b { buffer = none }

-- `data`, `cdata`, `begin` and `cbegin`; `end` and `cend`, with their offset; `size` and `capacity`.
abbrev pub data_of : NetworkBuffer → Option Cells
data_of b = b.buffer

abbrev pub end_of : NetworkBuffer → Option Cells × ℕ
end_of b = (b.buffer, b.size)

abbrev pub size_of : NetworkBuffer → ℕ
size_of b = b.size

abbrev pub capacity_of : NetworkBuffer → ℕ
capacity_of b = b.capacity

-- The conditional expression of `grow`.
pub grown_capacity : ℕ → ℕ → ℕ
grown_capacity capacity increment =
    if ltb (capacity * 2 % 2 ^ 64) (add_size capacity increment)
    then add_size capacity increment
    else capacity * 2 % 2 ^ 64

pub grow : NetworkBuffer → ℕ → Outcome NetworkBuffer
grow b increment = do
  cells ← new_char (grown_capacity b.capacity increment)
  source ← read b.buffer b.size
  buffer ← write (some cells) 0 source
  ok (record b { buffer = buffer; capacity = grown_capacity b.capacity increment })

-- The test and the call of `grow` that each append starts with.
pub reserve : NetworkBuffer → ℕ → Outcome NetworkBuffer
reserve b n = if ltb b.capacity (add_size b.size n) then grow b n else ok b

-- The store at `buffer_ + size_`, and `size_ +=`.
pub store : NetworkBuffer → Bytes → Outcome NetworkBuffer
store b bytes = do
  buffer ← write b.buffer b.size (map some bytes)
  ok (record b { buffer = buffer; size = add_size b.size (length bytes) })

-- The bytes of a stored integer, on a little-endian machine.
abbrev pub memory16 : ℕ → Bytes
memory16 v = (v % 256) ∷ (v / 256 % 256) ∷ []

abbrev pub memory32 : ℕ → Bytes
memory32 v = (v % 256) ∷ (v / 256 % 256) ∷ (v / 65536 % 256) ∷ (v / 16777216 % 256) ∷ []

-- The byte swaps of <netinet/in.h>.
abbrev pub htons : ℕ → ℕ
htons v = v % 256 * 256 + v / 256 % 256

abbrev pub htonl : ℕ → ℕ
htonl v = v % 256 * 16777216 + v / 256 % 256 * 65536 + v / 65536 % 256 * 256 + v / 16777216 % 256

pub append_uint8 : NetworkBuffer → ℕ → Outcome NetworkBuffer
append_uint8 b value = do b' ← reserve b 1; store b' (value ∷ [])

pub append_uint16 : NetworkBuffer → ℕ → Outcome NetworkBuffer
append_uint16 b value = do b' ← reserve b 2; store b' (memory16 (htons value))

pub append_uint32 : NetworkBuffer → ℕ → Outcome NetworkBuffer
append_uint32 b value = do b' ← reserve b 4; store b' (memory32 (htonl value))

pub append_string : NetworkBuffer → Bytes → Outcome NetworkBuffer
append_string b str = do b' ← reserve b (length str); store b' str
