-- ===== src/NetworkBuffer/Tests.antt =====
-- Runs of network_buffer/NetworkBuffer.cpp on small buffers.
use c_plus_plus.Prelude.{◌≤◌, ◌≡◌, refl, none, some, List, [], ◌∷◌, map, arith}
use c_plus_plus.NetworkBuffer.Results.{ok, err, undefined}
use c_plus_plus.NetworkBuffer.{
  read, destruct, end_of, NetworkBuffer, delete_network_buffer, append_string,
}
use c_plus_plus.NetworkBuffer.Append.{Holds}
use c_plus_plus.NetworkBuffer.Lifecycle.{append-delete}
use c_plus_plus.NetworkBuffer.Run.{Op, uint8, uint16, uint32, string, clear, run, run_refines}

abbrev bare : NetworkBuffer
bare = record { buffer = some (none ∷ none ∷ none ∷ []); size = 0; capacity = 3 }

bare-Holds : Holds bare []
bare-Holds = record { rest = none ∷ none ∷ none ∷ []; allocated = refl; count = refl; room = refl }

-- "hi" in a storage of three bytes
abbrev hi : NetworkBuffer
hi = record { buffer = some (some 104 ∷ some 105 ∷ none ∷ []); size = 2; capacity = 3 }

hi-Holds : Holds hi (104 ∷ 105 ∷ [])
hi-Holds = record { rest = none ∷ []; allocated = refl; count = refl; room = refl }

abbrev script : List Op
script = uint8 1 ∷ clear ∷ uint16 258 ∷ string (104 ∷ 105 ∷ []) ∷ uint32 7 ∷ []

run_refines_example :
    (b : NetworkBuffer) × (run bare script ≡ ok b)
    × (b.size ≡ 8)
    × (read b.buffer b.size ≡ ok (map some (1 ∷ 2 ∷ 104 ∷ 105 ∷ 0 ∷ 0 ∷ 0 ∷ 7 ∷ [])))
    × (b.capacity ≤ 32)
run_refines_example =
    run_refines script bare [] 32 bare-Holds
      (omega arith, (tt, (omega arith, (tt, (omega arith, tt))))) (omega arith) (omega arith)
      (omega arith)

append-delete_example : append_string (delete_network_buffer hi) (33 ∷ []) ≡ err undefined
append-delete_example = append-delete hi (104 ∷ 105 ∷ []) 33 [] hi-Holds (omega arith) (omega arith)

accessed : (end_of hi ≡ (hi.buffer, 2)) × (destruct hi ≡ delete_network_buffer hi)
unfolding delete_network_buffer
accessed = (refl, refl)
