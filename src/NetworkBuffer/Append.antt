-- ===== src/NetworkBuffer/Append.antt =====
-- The append operations of network_buffer/NetworkBuffer.cpp on a buffer that holds known bytes.
use c_plus_plus.Prelude.{
  ℕ, zero, suc, ◌+◌, ◌-◌, ◌*◌, ◌/◌, ◌%◌, ◌^◌, ◌≤◌, ◌<◌, max, ◌≡◌, refl, sym, ◌∙◌, inl, inr, Option,
  none, some, [], ◌∷◌, ◌++◌, map, append_assoc, map-append, arith, ltb, Bool-cases, length, drop,
  replicate, length-append, length-drop, length-replicate, length-map,
}
use c_plus_plus.Prelude.Chars.{Bytes}
use c_plus_plus.Prelude.Find.{take-length, drop-length}
use c_plus_plus.NetworkBuffer.{
  Cells, NetworkBuffer, add_size, new_char, read, write, grown_capacity, grow, reserve, store,
  memory16, memory32, htons, htonl,
}
use c_plus_plus.NetworkBuffer.Results.{ok, ◌>>=◌}

-- The buffer is allocated, starts with these bytes, and its two counters are right.
pub record Holds (b : NetworkBuffer) (bytes : Bytes) : Type 0 where
  pub rest : Cells
  pub allocated : b.buffer ≡ some (map some bytes ++ rest)
  pub count : b.size ≡ length bytes
  pub room : b.capacity ≡ length bytes + length rest

pub new_char-ok : (n : ℕ) → n < 2 ^ 63 → new_char n ≡ ok (replicate n none)
unfolding new_char
new_char-ok n h = ground arith

-- Reading what stands at the front.
pub read-ok : (xs rest : Cells) (n : ℕ) → n ≡ length xs → read (some (xs ++ rest)) n ≡ ok xs
unfolding read
read-ok xs rest n e = ground (arith, take-length xs rest n e, length-append xs rest)

-- Writing behind a known front, where it fits.
pub write-ok :
    (front rest source : Cells) (i : ℕ)
    → i ≡ length front
    → length source ≤ length rest
    → write (some (front ++ rest)) i source
      ≡ ok (some (front ++ (source ++ drop (length source) rest)))
unfolding write
write-ok front rest source i e h = ground (
  arith,
  take-length front rest i e,
  drop-length front rest (i + length source) (length source),
  length-append front rest,
)

pub drop-replicate {ℓ} :
    {A : Type ℓ} (k n : ℕ) (a : A) → drop k (replicate n a) ≡ replicate (n - k) a
drop-replicate zero n a = let e : n - 0 ≡ n = omega arith in rw e
drop-replicate (suc k) zero a = let e : 0 - suc k ≡ 0 = omega arith in rw e
drop-replicate (suc k) (suc n) a =
    let e : suc n - suc k ≡ n - k = omega arith in rw e (drop-replicate k n a)

-- Bytes written at the start of a new allocation.
pub write-fresh :
    (bytes : Bytes) (n : ℕ)
    → length bytes ≤ n
    → write (some (replicate n none)) 0 (map some bytes)
      ≡ ok (some (map some bytes ++ replicate (n - length bytes) none))
write-fresh bytes n h =
    write-ok [] (replicate n none) (map some bytes) 0 refl
      (omega (arith, length-map bytes some, length-replicate {A = Option ℕ} n none))
    ∙ rw (length-map bytes some, drop-replicate)

pub read-Holds :
    (b : NetworkBuffer) (bytes : Bytes) → Holds b bytes → read b.buffer b.size ≡ ok (map some bytes)
read-Holds b bytes h =
    rw h.allocated (read-ok (map some bytes) h.rest b.size (h.count ∙ sym (length-map bytes some)))

-- The capacity after `grow`, where no sum of two `size_t` wraps.
pub grown_capacity-max :
    (c n : ℕ) → c * 2 < 2 ^ 63 → c + n < 2 ^ 63 → grown_capacity c n ≡ max (c + n) (c * 2)
unfolding grown_capacity
grown_capacity-max c n p q = ground arith

-- `grow` reallocates and keeps the bytes.
pub grow-Holds :
    (b : NetworkBuffer) (bytes : Bytes) (n : ℕ)
    → Holds b bytes
    → b.capacity * 2 < 2 ^ 63
    → b.capacity + n < 2 ^ 63
    → (b' : NetworkBuffer) × (grow b n ≡ ok b')
      × Holds b' bytes
      × (b'.capacity ≡ max (b.capacity + n) (b.capacity * 2))
unfolding grow
grow-Holds b bytes n h p q =
    let c = max (b.capacity + n) (b.capacity * 2) in
    (
      record {
        buffer = some (map some bytes ++ replicate (c - length bytes) none);
        size = b.size;
        capacity = c;
      },
      rw (
        grown_capacity-max b.capacity n p q,
        new_char-ok c (omega arith),
        read-Holds b bytes h,
        write-fresh bytes c (omega (arith, h.room)),
      ),
      record {
        rest = replicate (c - length bytes) none;
        allocated = refl;
        count = h.count;
        room = omega (arith, h.room, length-replicate {A = Option ℕ} (c - length bytes) none);
      },
      refl,
    )

-- The store of an append, where the room is there.
pub store-Holds :
    (b : NetworkBuffer) (bytes new : Bytes)
    → Holds b bytes
    → length bytes + length new ≤ b.capacity
    → b.capacity < 2 ^ 63
    → (b' : NetworkBuffer) × (store b new ≡ ok b')
      × Holds b' (bytes ++ new)
      × (b'.capacity ≡ b.capacity)
unfolding store
store-Holds b bytes new h fits small = (
  record b {
    buffer = some (map some bytes ++ (map some new ++ drop (length new) h.rest));
    size = add_size b.size (length new);
  },
  rw (
    h.allocated,
    write-ok (map some bytes) h.rest (map some new) b.size (h.count ∙ sym (length-map bytes some))
        (omega (arith, h.room, length-map new some)),
    length-map new some,
  ),
  record {
    rest = drop (length new) h.rest;
    allocated = rw (map-append, append_assoc);
    count = omega (arith, h.count, h.room, length-append bytes new);
    room = omega (arith, h.room, length-append bytes new, length-drop (length new) h.rest);
  },
  refl,
)

-- The body that the four appends share: `reserve`, then `store`.
pub record Appended (b b' : NetworkBuffer) (bytes new : Bytes) : Type 0 where
  pub holds : Holds b' (bytes ++ new)
  pub grows : b.capacity ≤ b'.capacity
  pub bounded : b'.capacity ≤ max b.capacity (2 * (length bytes + length new))

pub append-Appended :
    (b : NetworkBuffer) (bytes new : Bytes)
    → Holds b bytes
    → 2 * max b.capacity (2 * (length bytes + length new)) < 2 ^ 63
    → (b' : NetworkBuffer) × ((reserve b (length new) >>= λ c. store c new) ≡ ok b')
      × Appended b b' bytes new
unfolding reserve
append-Appended b bytes new h small =
    elim (Bool-cases (ltb b.capacity (add_size b.size (length new)))) [
      | inl full ↦
          let (c, grown, held, cap) =
            grow-Holds b bytes (length new) h (omega arith) (ground (arith, h.room, h.count)) in
          let (b', stored, held', cap') =
            store-Holds c bytes new held (omega (arith, cap, h.room))
              (ground (arith, cap, h.room, h.count)) in
          (
            b',
            rw (full, grown) stored,
            record {
              holds = held';
              grows = omega (arith, cap, cap');
              bounded = ground (arith, cap, cap', h.count, h.room);
            },
          )
      | inr roomy ↦
          let (b', stored, held', cap') =
            store-Holds b bytes new h (ground (arith, h.count, h.room)) (omega arith) in
          (
            b',
            rw roomy stored,
            record { holds = held'; grows = omega (arith, cap'); bounded = omega (arith, cap') },
          )
    ]

-- An integer in network byte order.
abbrev pub big_endian16 : ℕ → Bytes
big_endian16 v = (v / 256) ∷ (v % 256) ∷ []

abbrev pub big_endian32 : ℕ → Bytes
big_endian32 v = (v / 16777216) ∷ (v / 65536 % 256) ∷ (v / 256 % 256) ∷ (v % 256) ∷ []

pub memory16-htons : (v : ℕ) → v < 2 ^ 16 → memory16 (htons v) ≡ big_endian16 v
memory16-htons v h = ground arith

pub memory32-htonl : (v : ℕ) → v < 2 ^ 32 → memory32 (htonl v) ≡ big_endian32 v
memory32-htonl v h = ground arith
