-- ===== src/ParseConfig/Dictionary/Held.antt =====
-- What a map of parse_config/ParseConfig.hpp holds behind an assignment.
use c_plus_plus.Prelude.{
  ◌≡◌, refl, sym, ap, ◌∙◌, Bool, true, false, ◌&&◌, Option, none, some, List, [], ◌∷◌,
  if◌then◌else◌, Bool-ne,
}
use c_plus_plus.Prelude.Chars.{Bytes}
use c_plus_plus.Prelude.Find.{equal, equal_iff}
use c_plus_plus.ParseConfig.Dictionary.{less, find, put, Items, Confs, items_of}

module _ {V : Type 0} where
  find-put :
      (k j : Bytes) (v : V) (m : List (Bytes × V))
      → find k (put j v m) ≡ (if equal j k then some v else find k m)
  unfolding find put
  find-put k j v [] = refl
  find-put k j v ((i, w) ∷ m) = by_place (equal i j) refl (less j i) (find-put k j v m)
    where
      shadowed :
          (a b : Bool) (x y z : Option V)
          → (a ≡ true → b ≡ true)
          → (if b then x else z) ≡ (if b then x else (if a then y else z))
      shadowed true b x y z h = rw (h refl) refl
      shadowed false b x y z h = refl

      swapped :
          (a b : Bool) (x y z : Option V)
          → (a ≡ true → b ≡ true → ⊥)
          → (if a then y else (if b then x else z)) ≡ (if b then x else (if a then y else z))
      swapped true true x y z h = absurd (h refl refl)
      swapped true false x y z h = refl
      swapped false b x y z h = refl

      by_place :
          (b : Bool)
          → equal i j ≡ b
          → (l : Bool) → find k (put j v m) ≡ (if equal j k then some v else find k m)
          → find k (if b then (j, v) ∷ m else if l then (j, v) ∷ (i, w) ∷ m else (i, w) ∷ put j v m)
            ≡ (if equal j k then some v else if equal i k then some w else find k m)
      by_place true e l r =
          shadowed (equal i k) (equal j k) (some v) (some w) (find k m)
            (λ h. (equal_iff j k).1 (sym ((equal_iff i j).0 e) ∙ (equal_iff i k).0 h))
      by_place false e true r = refl
      by_place false e false r =
          ap (λ t. if equal i k then some w else t) r
          ∙ swapped (equal i k) (equal j k) (some v) (some w) (find k m) (λ h g.
            Bool-ne ((equal_iff i j).1 ((equal_iff i k).0 h ∙ sym ((equal_iff j k).0 g))) e)

-- The value of a name of a section.
abbrev pub held : Bytes → Bytes → Confs → Option Bytes
held section name confs = find name (items_of section confs)

items_of-put :
    (section other : Bytes) (items : Items) (confs : Confs)
    → items_of section (put other items confs)
      ≡ (if equal other section then items else items_of section confs)
items_of-put section other items confs =
    ap items_in (find-put section other items confs) ∙ branch (equal other section)
  where
    items_in : Option Items → Items
    items_in o = elim o [ none ↦ [] | some items ↦ items ]

    branch :
        (b : Bool)
        → items_in (if b then some items else find section confs)
          ≡ (if b then items else items_of section confs)
    branch true = refl
    branch false = refl

pub held-put :
    (section name other label value : Bytes) (confs : Confs)
    → held section name (put other (put label value (items_of other confs)) confs)
      ≡ (if equal other section && equal label name then some value else held section name confs)
held-put section name other label value confs =
    ap (find name) (items_of-put section other (put label value (items_of other confs)) confs)
    ∙ by_section (equal other section) refl
  where
    by_name :
        other ≡ section
        → find name (put label value (items_of other confs))
          ≡ (if equal label name then some value else held section name confs)
    by_name e =
        find-put name label value (items_of other confs)
        ∙ ap (λ s. if equal label name then some value else find name (items_of s confs)) e

    by_section :
        (b : Bool)
        → equal other section ≡ b
        → find name (if b then put label value (items_of other confs) else items_of section confs)
          ≡ (if b && equal label name then some value else held section name confs)
    by_section true e = by_name ((equal_iff other section).0 e)
    by_section false e = refl
