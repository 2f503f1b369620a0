-- ===== src/ParseConfig/Dictionary.antt =====
-- `std::map<string, V>`: the entries in ascending order of their keys.
pub mod Order
pub mod Last
pub mod Held
use c_plus_plus.Prelude.{
  ◌-◌, ◌<◌, ap, Bool, true, false, not, Option, none, some, List, [], ◌∷◌, map, ltb, if◌then◌else◌,
}
use c_plus_plus.Prelude.Chars.{Bytes}
use c_plus_plus.Prelude.Find.{equal}

-- `std::less<string>`: `char_traits<char>` compares the bytes as unsigned.
unfoldable pub less : Bytes → Bytes → Bool
less [] [] = false
less [] (y ∷ ys) = true
less (x ∷ xs) [] = false
less (x ∷ xs) (y ∷ ys) =
    let rest = less xs ys in if ltb x y then true else if ltb y x then false else rest

module _ {V : Type 0} where
  -- `find`
  unfoldable pub find : Bytes → List (Bytes × V) → Option V
  find k [] = none
  find k ((j, v) ∷ m) = let rest = find k m in if equal j k then some v else rest

  -- `m[k] = v`
  unfoldable pub put : Bytes → V → List (Bytes × V) → List (Bytes × V)
  put k v [] = (k, v) ∷ []
  put k v ((j, w) ∷ m) =
      let rest = put k v m in
      if equal j k then (k, v) ∷ m else if less k j then (k, v) ∷ (j, w) ∷ m else (j, w) ∷ rest

abbrev pub Items : Type 0
Items = List (Bytes × Bytes)

-- `tripleStrMap`
abbrev pub Confs : Type 0
Confs = List (Bytes × Items)

-- `m[section]`, which is empty if it was not there.
abbrev pub items_of : Bytes → Confs → Items
items_of section m = elim (find section m) [ none ↦ [] | some items ↦ items ]
