-- ===== src/NetworkBuffer/Lifecycle.antt =====
-- Construction, copying and deletion of a buffer of network_buffer/NetworkBuffer.cpp.
use c_plus_plus.Prelude.{
  ℕ, ◌+◌, ◌-◌, ◌*◌, ◌^◌, ◌≤◌, ◌<◌, max, ◌≡◌, refl, sym, inl, inr, Option, none, some, [], ◌∷◌, ◌++◌,
  map, arith, ltb, leb, leb→le, Bool-cases, length, drop, replicate, length-append, length-drop,
  length-replicate, length-map,
}
use c_plus_plus.Prelude.Chars.{Bytes}
use c_plus_plus.NetworkBuffer.Results.{ok, err, undefined}
use c_plus_plus.NetworkBuffer.{
  Cells, NetworkBuffer, min_capacity, add_size, read, write, create, create_from,
  delete_network_buffer, copy_network_buffer, reserve, store, grow, append_string,
}
use c_plus_plus.NetworkBuffer.Append.{
  grown_capacity-max, Holds, new_char-ok, read-ok, write-ok, write-fresh, read-Holds,
  grown_capacity-max,
}

fresh-Holds :
    (bytes : Bytes) (c n : ℕ)
    → length bytes ≤ c
    → n ≡ length bytes
    → Holds
        (record {
          buffer = some (map some bytes ++ replicate (c - length bytes) none);
          size = n;
          capacity = c;
        })
        bytes
fresh-Holds bytes c n h e = record {
  rest = replicate (c - length bytes) none;
  allocated = refl;
  count = e;
  room = omega (arith, length-replicate {A = Option ℕ} (c - length bytes) none);
}

-- A new buffer is empty, and its capacity is the larger of the argument and the minimum.
pub create-Holds :
    (n : ℕ)
    → n < 2 ^ 63
    → (b : NetworkBuffer) × (create n ≡ ok b) × Holds b [] × (b.capacity ≡ max n min_capacity)
unfolding create
create-Holds n h = elim (Bool-cases (leb n min_capacity)) [
  | inl small ↦ (
    record { buffer = some (replicate min_capacity none); size = 0; capacity = min_capacity },
    rw (small, new_char-ok min_capacity (omega arith)),
    record {
      rest = replicate min_capacity none;
      allocated = refl;
      count = refl;
      room = omega (arith, length-replicate {A = Option ℕ} min_capacity none);
    },
    ground arith,
  )
  | inr large ↦ (
    record { buffer = some (replicate n none); size = 0; capacity = n },
    rw (large, new_char-ok n h),
    record {
      rest = replicate n none;
      allocated = refl;
      count = refl;
      room = omega (arith, length-replicate {A = Option ℕ} n none);
    },
    ground arith,
  )
]

-- A buffer that is made from the bytes at the start of a piece of memory, fewer than 2 ^ 63, holds
-- those bytes, and its capacity is the larger of their number and the minimum.
pub create_from-Holds :
    (bytes : Bytes) (rest : Cells)
    → length bytes < 2 ^ 63
    → (b : NetworkBuffer) × (create_from (some (map some bytes ++ rest)) (length bytes) ≡ ok b)
      × Holds b bytes
      × (b.capacity ≡ max (length bytes) min_capacity)
unfolding create_from
create_from-Holds bytes rest h =
    let reads = read-ok (map some bytes) rest (length bytes) (sym (length-map bytes some)) in
    elim (Bool-cases (leb (length bytes) min_capacity)) [
      | inl small ↦
          let le = leb→le _ _ small in
          (
            _,
            rw (
              small,
              new_char-ok min_capacity (omega arith),
              reads,
              write-fresh bytes min_capacity le,
            ),
            fresh-Holds bytes min_capacity (length bytes) le refl,
            omega arith,
          )
      | inr large ↦ (
        _,
        rw (
          large,
          new_char-ok (length bytes) h,
          reads,
          write-fresh bytes (length bytes) (omega arith),
        ),
        fresh-Holds bytes (length bytes) (length bytes) (omega arith) refl,
        ground arith,
      )
    ]

-- `copyNetworkBuffer` makes a buffer hold the bytes of another, fewer than 2 ^ 63; the capacity
-- grows to their number if it was smaller, and is otherwise kept.
pub copy-Holds :
    (b copied : NetworkBuffer) (old new : Bytes)
    → Holds b old
    → Holds copied new
    → length new < 2 ^ 63
    → (b' : NetworkBuffer) × (copy_network_buffer b copied ≡ ok b')
      × Holds b' new
      × (b'.capacity ≡ max b.capacity (length new))
unfolding copy_network_buffer
copy-Holds b copied old new h g small = elim (Bool-cases (leb copied.size b.capacity)) [
  | inl fits ↦
      let cells : Cells = map some old ++ h.rest in
      let room : length new ≤ length cells =
        ground (arith, h.room, g.count, length-append (map some old) h.rest, length-map old some) in
      (
        record b { buffer = some (map some new ++ drop (length new) cells); size = copied.size },
        rw (
          fits,
          read-Holds copied new g,
          h.allocated,
          write-ok [] cells (map some new) 0 refl (omega (arith, length-map new some)),
          length-map new some,
        ),
        record {
          rest = drop (length new) cells;
          allocated = refl;
          count = g.count;
          room = omega (
            arith,
            h.room,
            length-append (map some old) h.rest,
            length-map old some,
            length-drop (length new) cells,
          );
        },
        ground (arith, g.count),
      )
  | inr short ↦ (
    record {
      buffer = some (map some new ++ replicate (copied.size - length new) none);
      size = copied.size;
      capacity = copied.size;
    },
    rw (
      short,
      new_char-ok copied.size (omega (arith, g.count)),
      read-Holds copied new g,
      write-fresh new copied.size (omega (arith, g.count)),
    ),
    fresh-Holds new copied.size copied.size (omega (arith, g.count)) g.count,
    ground (arith, g.count),
  )
]

read-null : (n : ℕ) → 0 < n → read none n ≡ err undefined
unfolding read
read-null n h = ground arith

write-null : (i : ℕ) (source : Cells) → 0 < length source → write none i source ≡ err undefined
unfolding write
write-null i source h = ground arith

-- `deleteNetworkBuffer` leaves the counters as they are: if the buffer held a byte, an append of
-- at least one byte after it copies from, or writes through, the null pointer. Twice the capacity
-- and the appended length together is below 2 ^ 63.
pub append-delete :
    (b : NetworkBuffer) (bytes : Bytes) (c : ℕ) (str : Bytes)
    → Holds b bytes
    → 0 < length bytes
    → 2 * (b.capacity + length (c ∷ str)) < 2 ^ 63
    → append_string (delete_network_buffer b) (c ∷ str) ≡ err undefined
unfolding append_string delete_network_buffer reserve store grow
append-delete b bytes c str h pos small =
    elim (Bool-cases (ltb b.capacity (add_size b.size (length (c ∷ str))))) [
      | inl full ↦ rw (
        full,
        grown_capacity-max b.capacity (length (c ∷ str)) (omega arith) (omega arith),
        new_char-ok (max (b.capacity + length (c ∷ str)) (b.capacity * 2)) (omega arith),
        read-null b.size (omega (arith, h.count)),
      )
      | inr roomy ↦ rw (roomy, write-null b.size (map some (c ∷ str)) (omega arith))
    ]
