-- ===== src/NetworkBuffer/Run.antt =====
-- Sequences of calls on a buffer of network_buffer/NetworkBuffer.cpp against a plain byte string.
use c_plus_plus.Prelude.{
  ℕ, ◌+◌, ◌*◌, ◌^◌, ◌≤◌, ◌<◌, ◌≡◌, refl, Option, some, List, [], ◌∷◌, ◌++◌, map, arith, length,
  drop, replicate, length-append, length-drop, length-replicate, length-map,
}
use c_plus_plus.Prelude.Chars.{Bytes}
use c_plus_plus.NetworkBuffer.Results.{Outcome, ok, ◌>>=◌}
use c_plus_plus.NetworkBuffer.{
  Cells, NetworkBuffer, data_of, size_of, capacity_of, read, clear_network_buffer, append_uint8,
  append_uint16, append_uint32, append_string,
}
use c_plus_plus.NetworkBuffer.Append.{
  Holds, read-Holds, write-ok, append-Appended, big_endian16, big_endian32, memory16-htons,
  memory32-htonl,
}

pub data Op : Type 0 where
  uint8 uint16 uint32 : ℕ → Op
  string : Bytes → Op
  clear : Op

-- The argument is a value of the parameter's type.
abbrev pub IsTyped : Op → Type 0
IsTyped (uint8 v) = v < 2 ^ 8
IsTyped (uint16 v) = v < 2 ^ 16
IsTyped (uint32 v) = v < 2 ^ 32
IsTyped (string s) = Unit
IsTyped clear = Unit

abbrev pub AreTyped : List Op → Type 0
AreTyped [] = Unit
AreTyped (op ∷ ops) = IsTyped op × AreTyped ops

-- A client's calls in order.
pub call : NetworkBuffer → Op → Outcome NetworkBuffer
call b (uint8 v) = append_uint8 b v
call b (uint16 v) = append_uint16 b v
call b (uint32 v) = append_uint32 b v
call b (string s) = append_string b s
call b clear = clear_network_buffer b

pub run : NetworkBuffer → List Op → Outcome NetworkBuffer
run b [] = ok b
run b (op ∷ ops) = do b' ← call b op; run b' ops

-- The abstract view: the bytes that have been appended since the last clear.
abbrev pub encode : Op → Bytes
encode (uint8 v) = v ∷ []
encode (uint16 v) = big_endian16 v
encode (uint32 v) = big_endian32 v
encode (string s) = s
encode clear = []

abbrev pub after : Bytes → Op → Bytes
after bytes clear = []
after bytes (uint8 v) = bytes ++ encode (uint8 v)
after bytes (uint16 v) = bytes ++ encode (uint16 v)
after bytes (uint32 v) = bytes ++ encode (uint32 v)
after bytes (string s) = bytes ++ s

abbrev pub after_all : Bytes → List Op → Bytes
after_all bytes [] = bytes
after_all bytes (op ∷ ops) = after_all (after bytes op) ops

-- How many bytes the calls append in all.
abbrev pub total : List Op → ℕ
total [] = 0
total (op ∷ ops) = length (encode op) + total ops

clear-Holds :
    (b : NetworkBuffer) (bytes : Bytes)
    → Holds b bytes
    → (b' : NetworkBuffer) × (clear_network_buffer b ≡ ok b')
      × Holds b' []
      × (b'.capacity ≡ b.capacity)
unfolding clear_network_buffer
clear-Holds b bytes h =
    let zeros : Cells = replicate b.size (some 0) in
    let cells : Cells = map some bytes ++ h.rest in
    let len = length-append (map some bytes) h.rest in
    (
      record b { buffer = some (zeros ++ drop (length zeros) cells); size = 0 },
      rw (
        h.allocated,
        write-ok [] cells zeros 0 refl (
            omega (
              arith,
              h.count,
              len,
              length-map bytes some,
              length-replicate {A = Option ℕ} b.size (some 0),
            )),
      ),
      record {
        rest = zeros ++ drop (length zeros) cells;
        allocated = refl;
        count = refl;
        room = omega (
          arith,
          h.room,
          h.count,
          len,
          length-map bytes some,
          length-replicate {A = Option ℕ} b.size (some 0),
          length-append zeros (drop (length zeros) cells),
          length-drop (length zeros) cells,
        );
      },
      refl,
    )

-- One call succeeds and does to the bytes what the abstract view says; the capacity stays under `k`.
call-Holds :
    (op : Op) (b : NetworkBuffer) (bytes : Bytes) (k : ℕ)
    → Holds b bytes
    → IsTyped op
    → b.capacity ≤ k
    → 2 * (length bytes + length (encode op)) ≤ k
    → 2 * k < 2 ^ 63
    → (b' : NetworkBuffer) × (call b op ≡ ok b') × Holds b' (after bytes op) × (b'.capacity ≤ k)
unfolding call append_uint8 append_uint16 append_uint32 append_string
call-Holds (uint8 v) b bytes k h t c n s =
    let (b', e, a) = append-Appended b bytes (v ∷ []) h (omega arith) in
    (b', e, a.holds, omega (arith, a.bounded))
call-Holds (uint16 v) b bytes k h t c n s =
    let (b', e, a) = append-Appended b bytes (big_endian16 v) h (omega arith) in
    (b', rw (memory16-htons v t) e, a.holds, omega (arith, a.bounded))
call-Holds (uint32 v) b bytes k h t c n s =
    let (b', e, a) = append-Appended b bytes (big_endian32 v) h (omega arith) in
    (b', rw (memory32-htonl v t) e, a.holds, omega (arith, a.bounded))
call-Holds (string str) b bytes k h t c n s =
    let (b', e, a) = append-Appended b bytes str h (omega arith) in
    (b', e, a.holds, omega (arith, a.bounded))
call-Holds clear b bytes k h t c n s =
    let (b', e, held, cap) = clear-Holds b bytes h in (b', e, held, omega (arith, cap))

length-after :
    (bytes : Bytes) (op : Op) → length (after bytes op) ≤ length bytes + length (encode op)
length-after bytes (uint8 v) = omega (arith, length-append bytes (v ∷ []))
length-after bytes (uint16 v) = omega (arith, length-append bytes (big_endian16 v))
length-after bytes (uint32 v) = omega (arith, length-append bytes (big_endian32 v))
length-after bytes (string s) = omega (arith, length-append bytes s)
length-after bytes clear = omega arith

run-Holds :
    (ops : List Op) (b : NetworkBuffer) (bytes : Bytes) (k : ℕ)
    → Holds b bytes
    → AreTyped ops
    → b.capacity ≤ k
    → 2 * (length bytes + total ops) ≤ k
    → 2 * k < 2 ^ 63
    → (b' : NetworkBuffer) × (run b ops ≡ ok b')
      × Holds b' (after_all bytes ops)
      × (b'.capacity ≤ k)
unfolding run
run-Holds [] b bytes k h t c n s = (b, refl, h, c)
run-Holds (op ∷ ops) b bytes k h (t, ts) c n s =
    let (b', e, held, c') = call-Holds op b bytes k h t c (omega arith) s in
    let (b'', e', held', c'') =
      run-Holds ops b' (after bytes op) k held ts c' (omega (arith, length-after bytes op)) s in
    (b'', rw e e', held', c'')

-- Any sequence of typed appends and clears on a buffer that holds `bytes` succeeds, with no fault
-- and no failed allocation, provided that `k` bounds the first capacity and twice the number of
-- bytes, and that twice `k` is below 2 ^ 63. The `size` bytes at `data` are then exactly the bytes of
-- the abstract view, and the capacity has not passed `k`.
pub run_refines :
    (ops : List Op) (b : NetworkBuffer) (bytes : Bytes) (k : ℕ)
    → Holds b bytes
    → AreTyped ops
    → capacity_of b ≤ k
    → 2 * (length bytes + total ops) ≤ k
    → 2 * k < 2 ^ 63
    → (b' : NetworkBuffer) × (run b ops ≡ ok b')
      × (size_of b' ≡ length (after_all bytes ops))
      × (read (data_of b') (size_of b') ≡ ok (map some (after_all bytes ops)))
      × (capacity_of b' ≤ k)
run_refines ops b bytes k h t c n s =
    let (b', e, held, c') = run-Holds ops b bytes k h t c n s in
    (b', e, held.count, read-Holds b' (after_all bytes ops) held, c')
