-- ===== src/Logger/Files.antt =====
-- The files of a logger: a path is the base name and a number, 0 for `xx.log` and i for `xx.i.log`.
-- No base name is taken to be another with a number. A file is there when it can be opened, removed
-- and renamed, and one that is opened to append is created.
use c_plus_plus.Prelude.{
  ℕ, ◌≡◌, ◌≢◌, Bool, true, false, ◌&&◌, Option, none, some, [], arith, ◌==◌, if◌then◌else◌,
}
use c_plus_plus.Prelude.Chars.{Bytes}
use c_plus_plus.Prelude.Find.{equal, equal_iff}

abbrev pub Disk : Type 0
Disk = Bytes → ℕ → Option Bytes

abbrev pub is_file : Option Bytes → Bool
is_file none = false
is_file (some c) = true

abbrev pub content : Option Bytes → Bytes
content none = []
content (some c) = c

unfoldable pub put : Disk → Bytes → ℕ → Option Bytes → Disk
put d name i c n k = if equal n name && k == i then c else d n k

-- `open` with `ios_base::out | ios_base::app`
unfoldable pub create : Disk → Bytes → ℕ → Disk
create d name i = if is_file (d name i) then d else put d name i (some [])

pub put-same : (d : Disk) (name : Bytes) (i : ℕ) (c : Option Bytes) → put d name i c name i ≡ c
unfolding put
put-same d name i c = ground (arith, equal_iff name name)

pub put-other :
    (d : Disk) (name : Bytes) (i k : ℕ) (c : Option Bytes)
    → k ≢ i
    → put d name i c name k ≡ d name k
unfolding put
put-other d name i k c h = ground (arith, equal_iff name name)

pub create-there :
    (d : Disk) (name : Bytes) (i : ℕ) → is_file (d name i) ≡ true → create d name i ≡ d
unfolding create
create-there d name i h = rw h

pub create-new :
    (d : Disk) (name : Bytes) (i : ℕ)
    → is_file (d name i) ≡ false
    → create d name i ≡ put d name i (some [])
unfolding create
create-new d name i h = rw h
