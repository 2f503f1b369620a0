-- ===== src/ParseConfig/Dictionary/Last.antt =====
-- Assignments to a key of a map that no key of the map exceeds.
use c_plus_plus.Prelude.{◌≡◌, refl, true, none, some, List, [], ◌∷◌, ◌++◌}
use c_plus_plus.Prelude.Chars.{Bytes}
use c_plus_plus.Prelude.Find.{equal_iff}
use c_plus_plus.ParseConfig.Dictionary.{less, find, put}
use c_plus_plus.ParseConfig.Dictionary.Order.{less_trans, less_irrefl, less_asym, IsSorted}

module _ {V : Type 0} where
  abbrev pub AreBelow : Bytes → List (Bytes × V) → Type 0
  AreBelow k [] = Unit
  AreBelow k ((j, v) ∷ m) = (less j k ≡ true) × AreBelow k m

  pub put-AreBelow :
      (k : Bytes) (v : V) (m : List (Bytes × V)) → AreBelow k m → put k v m ≡ m ++ (k, v) ∷ []
  unfolding put
  put-AreBelow k v [] a = refl
  put-AreBelow k v ((j, w) ∷ m) a =
      rw (less_irrefl j k a.0, less_asym j k a.0, put-AreBelow k v m a.1)

  pub put-last :
      (k : Bytes) (v w : V) (m : List (Bytes × V))
      → AreBelow k m
      → put k v (m ++ (k, w) ∷ []) ≡ m ++ (k, v) ∷ []
  unfolding put
  put-last k v w [] a = rw ((equal_iff k k).1 refl)
  put-last k v w ((j, u) ∷ m) a = rw (less_irrefl j k a.0, less_asym j k a.0, put-last k v w m a.1)

  pub find-AreBelow : (k : Bytes) (m : List (Bytes × V)) → AreBelow k m → find k m ≡ none
  unfolding find
  find-AreBelow k [] a = refl
  find-AreBelow k ((j, w) ∷ m) a = rw (less_irrefl j k a.0, find-AreBelow k m a.1)

  pub find-last :
      (k : Bytes) (w : V) (m : List (Bytes × V)) → AreBelow k m → find k (m ++ (k, w) ∷ []) ≡ some w
  unfolding find
  find-last k w [] a = rw ((equal_iff k k).1 refl)
  find-last k w ((j, u) ∷ m) a = rw (less_irrefl j k a.0, find-last k w m a.1)

  -- Every key of a sorted list exceeds those before it.
  abbrev pub Ascends : List (Bytes × V) → List (Bytes × V) → Type 0
  Ascends done [] = Unit
  Ascends done ((k, v) ∷ m) = AreBelow k done × Ascends (done ++ (k, v) ∷ []) m

  AreBelow-snoc :
      (j k : Bytes) (v : V) (m : List (Bytes × V))
      → less k j ≡ true
      → AreBelow k m
      → AreBelow j (m ++ (k, v) ∷ [])
  AreBelow-snoc j k v [] h a = (h, tt)
  AreBelow-snoc j k v ((i, w) ∷ m) h a = (less_trans i k j a.0 h, AreBelow-snoc j k v m h a.1)

  IsSorted-follows :
      (k : Bytes) (v : V) (done m : List (Bytes × V))
      → AreBelow k done
      → IsSorted ((k, v) ∷ m)
      → Ascends done ((k, v) ∷ m)
  IsSorted-follows k v done [] a s = (a, tt)
  IsSorted-follows k v done ((j, w) ∷ m) a s =
      (a, IsSorted-follows j w (done ++ (k, v) ∷ []) m (AreBelow-snoc j k v done s.0 a) s.1)

  pub IsSorted-Ascends : (m : List (Bytes × V)) → IsSorted m → Ascends [] m
  IsSorted-Ascends [] s = tt
  IsSorted-Ascends ((k, v) ∷ m) s = IsSorted-follows k v [] m tt s
