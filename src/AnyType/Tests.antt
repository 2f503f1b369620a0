-- ===== src/AnyType/Tests.antt =====
-- Runs of any_type/AnyType.hpp.
use c_plus_plus.Prelude.{◌-◌, ◌^◌, ◌≡◌, refl, ◌≢◌, inl, inr, some, [], ◌∷◌, get_elem?}
use c_plus_plus.AnyType.{
  integer, number, string, int64, double, text, Heap, AnyType, type_error, undefined, construct,
  from_int32, from_int64, from_float, from_double, from_string, from_copy, from_move, destroy,
  assign, assign_int32, assign_int64, assign_double, assign_string, assign_copy, assign_move, value,
}
use c_plus_plus.AnyType.Objects.{object, Owns, assign_lem, copy_lem, move_lem, assign_copy_lem}

-- 7, and "a"
abbrev heap : Heap
heap = some (int64 7) ∷ some (text (97 ∷ [])) ∷ []

seven : Owns heap integer 0 (int64 7)
seven = record { held = refl; typed = refl }

letter : Owns heap string 1 (text (97 ∷ []))
letter = record { held = refl; typed = refl }

assigned_seven :
    ((h : Heap) × (assign integer (int64 8) heap (object integer 0) ≡ inr h)
      × (value integer h (object integer 0) ≡ inr (int64 8)))
    × (assign string (int64 8) heap (object integer 0) ≡ inl (type_error integer))
    × (value string heap (object integer 0) ≡ inl (type_error integer))
assigned_seven = assign_lem heap integer string 0 (int64 7) (int64 8) seven refl refl

copy_lem_example :
    (h : Heap) × (c : AnyType) × (from_copy heap (object integer 0) ≡ inr (h, c))
    × (value integer h c ≡ inr (int64 7))
    × ((h' : Heap) × (assign integer (int64 8) h c ≡ inr h')
        × (value integer h' c ≡ inr (int64 8))
        × (value integer h' (object integer 0) ≡ inr (int64 7)))
copy_lem_example = copy_lem heap integer 0 (int64 7) (int64 8) seven refl

move_lem_example :
    (value integer heap (from_move (object integer 0)).0 ≡ inr (int64 7))
    × (value integer heap (from_move (object integer 0)).1 ≡ inl undefined)
    × (destroy heap (from_move (object integer 0)).1 ≡ inr heap)
move_lem_example = move_lem heap integer 0 (int64 7) seven

assign_copy_lem_example :
    (h : Heap) × (c : AnyType) × (assign_copy heap (object integer 0) (object string 1)
      ≡ inr (h, c))
    × (value string h c ≡ inr (text (97 ∷ [])))
    × (get_elem? h 0 ≡ some (some (int64 7)))
    × (c.p_value ≢ some 0)
assign_copy_lem_example =
    assign_copy_lem heap integer string 0 1 (int64 7) (text (97 ∷ [])) seven letter

built :
    (from_int32 (2 ^ 32 - 1) [] ≡ (some (int64 (2 ^ 64 - 1)) ∷ [], object integer 0))
    × (from_int64 7 [] ≡ (some (int64 7) ∷ [], object integer 0))
    × (from_float (λ v. v) 5 [] ≡ (some (double 5) ∷ [], object number 0))
    × (from_double 5 [] ≡ (some (double 5) ∷ [], object number 0))
    × (from_string (97 ∷ []) [] ≡ (some (text (97 ∷ [])) ∷ [], object string 0))
unfolding from_int32 from_int64 from_float from_double from_string construct
built = (refl, refl, refl, refl, refl)

assigned :
    (assign_int32 8 heap (object integer 0) ≡ assign_int64 8 heap (object integer 0))
    × (assign_double 8 heap (object integer 0) ≡ inl (type_error integer))
    × (assign_string [] heap (object integer 0) ≡ inl (type_error integer))
    × (assign_move (object integer 0) (object string 1) ≡ from_move (object string 1))
unfolding assign_int32 assign_int64 assign_double assign_string assign assign_move
assigned = (refl, refl, refl, refl)
