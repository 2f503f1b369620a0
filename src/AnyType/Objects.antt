-- ===== src/AnyType/Objects.antt =====
-- Objects of any_type/AnyType.hpp that own a block.
use c_plus_plus.Prelude.{
  get_elem?-set_self, get_elem?-set_ne, ℕ, zero, suc, ◌<◌, ◌≡◌, refl, ◌∙◌, ◌≢◌, inl, inr, true,
  false, Option, some, [], ◌∷◌, ◌++◌, arith, length, get_elem?, set,
}
use c_plus_plus.Prelude.Find.{get_elem?-append}
use mathlib.Core.Option.{some-injective}
use c_plus_plus.AnyType.{
  TypeE, integer, number, string, same_type, Block, Heap, AnyType, type_error, undefined, has_type,
  load, construct, from_copy, from_move, destroy, assign, assign_copy, value,
}

-- An object with a tag and a pointer.
abbrev pub object : TypeE → ℕ → AnyType
object t p = record { en_type = some t; p_value = some p }

-- It points to a block of its type.
pub record Owns (h : Heap) (t : TypeE) (p : ℕ) (block : Block) : Type 0 where
  pub held : get_elem? h p ≡ some (some block)
  pub typed : has_type t block ≡ true

get_elem?-inside : (h : Heap) (p : ℕ) (b : Option Block) → get_elem? h p ≡ some b → p < length h
get_elem?-inside [] p b e = absurd (cc)
get_elem?-inside (x ∷ h) zero b e = omega arith
get_elem?-inside (x ∷ h) (suc p) b e = omega (arith, get_elem?-inside h p b e)

get_elem?-longer :
    (h more : Heap) (p : ℕ) (b : Option Block)
    → get_elem? h p ≡ some b
    → get_elem? (h ++ more) p ≡ some b
get_elem?-longer [] more p b e = absurd (cc)
get_elem?-longer (x ∷ h) more zero b e = e
get_elem?-longer (x ∷ h) more (suc p) b e = get_elem?-longer h more p b e

same_type_refl : (t : TypeE) → same_type t t ≡ true
same_type_refl integer = refl
same_type_refl number = refl
same_type_refl string = refl

load-Owns :
    (h : Heap) (t : TypeE) (p : ℕ) (block : Block)
    → Owns h t p block
    → load t h (some p) ≡ some block
unfolding load
load-Owns h t p block o = rw (o.held, o.typed, load)

value-Owns :
    (h : Heap) (t : TypeE) (p : ℕ) (block : Block)
    → Owns h t p block
    → value t h (object t p) ≡ inr block
unfolding value
value-Owns h t p block o = rw (same_type_refl t, load-Owns h t p block o)

assign-Owns :
    (h : Heap) (t : TypeE) (p : ℕ) (block new : Block)
    → Owns h t p block
    → assign t new h (object t p) ≡ inr (set h p (some new))
unfolding assign
assign-Owns h t p block new o = rw (same_type_refl t, load-Owns h t p block o)

from_copy-Owns :
    (h : Heap) (t : TypeE) (p : ℕ) (block : Block)
    → Owns h t p block
    → from_copy h (object t p) ≡ inr (h ++ some block ∷ [], object t (length h))
unfolding from_copy construct
from_copy-Owns h t p block o = rw (load-Owns h t p block o, from_copy)

new-Owns :
    (h : Heap) (t : TypeE) (block : Block)
    → has_type t block ≡ true
    → Owns (h ++ some block ∷ []) t (length h) block
new-Owns h t block k = record {
  held = get_elem?-append h [] (some block) (length h) refl;
  typed = k;
}

longer-Owns :
    (h more : Heap) (t : TypeE) (p : ℕ) (block : Block)
    → Owns h t p block
    → Owns (h ++ more) t p block
longer-Owns h more t p block o = record {
  held = get_elem?-longer h more p (some block) o.held;
  typed = o.typed;
}

set-Owns :
    (h : Heap) (t : TypeE) (p : ℕ) (block new : Block)
    → Owns h t p block
    → has_type t new ≡ true
    → Owns (set h p (some new)) t p new
set-Owns h t p block new o k = record {
  held = get_elem?-set_self h p (some new) (get_elem?-inside h p (some block) o.held);
  typed = k;
}

kept-Owns :
    (h : Heap) (t : TypeE) (p q : ℕ) (block : Block) (b : Option Block)
    → Owns h t p block
    → q ≢ p
    → Owns (set h q b) t p block
kept-Owns h t p q block b o ne = record { held = get_elem?-set_ne h b ne ∙ o.held; typed = o.typed }

assign-other :
    (h : Heap) (t t' : TypeE) (p : ℕ) (new : Block)
    → same_type t' t ≡ false
    → (assign t' new h (object t p) ≡ inl (type_error t))
      × (value t' h (object t p) ≡ inl (type_error t))
unfolding assign value
assign-other h t t' p new other = (rw other, rw other)

-- For an object that points to a block of its type: a value of the type that is assigned is
-- stored, and is what `value` returns then; an assignment and a `value` of another type are
-- refused with an error that names the type of the object.
pub assign_lem :
    (h : Heap) (t t' : TypeE) (p : ℕ) (block new : Block)
    → Owns h t p block
    → has_type t new ≡ true
    → same_type t' t ≡ false
    → ((h' : Heap) × (assign t new h (object t p) ≡ inr h') × (value t h' (object t p) ≡ inr new))
      × (assign t' new h (object t p) ≡ inl (type_error t))
      × (value t' h (object t p) ≡ inl (type_error t))
assign_lem h t t' p block new o k other =
    let stored = set-Owns h t p block new o k in
    let refused = assign-other h t t' p new other in
    (
      (
        set h p (some new),
        assign-Owns h t p block new o,
        value-Owns (set h p (some new)) t p new stored,
      ),
      refused.0,
      refused.1,
    )

-- For an object that points to a block of its type: a copy holds its value in a block of its own.
-- A value of the type that is assigned to the copy is what the copy returns, and the object still
-- returns the old one.
pub copy_lem :
    (h : Heap) (t : TypeE) (p : ℕ) (block new : Block)
    → Owns h t p block
    → has_type t new ≡ true
    → (h' : Heap) × (c : AnyType) × (from_copy h (object t p) ≡ inr (h', c))
      × (value t h' c ≡ inr block)
      × ((h'' : Heap) × (assign t new h' c ≡ inr h'')
          × (value t h'' c ≡ inr new)
          × (value t h'' (object t p) ≡ inr block))
copy_lem h t p block new o k =
    let h' = h ++ some block ∷ [] in
    let q = length h in
    let copied = new-Owns h t block o.typed in
    let h'' = set h' q (some new) in
    let apart : q ≢ p = λ e. omega (arith, e, get_elem?-inside h p (some block) o.held) in
    let kept = longer-Owns h (some block ∷ []) t p block o in
    (
      h',
      object t q,
      from_copy-Owns h t p block o,
      value-Owns h' t q block copied,
      (
        h'',
        assign-Owns h' t q block new copied,
        value-Owns h'' t q new (set-Owns h' t q block new copied k),
        value-Owns h'' t p block (kept-Owns h' t p q block (some new) kept apart),
      ),
    )

-- For an object that points to a block of its type: a move takes the value over. `value` of the
-- object that was moved from uses the null pointer, and its destructor frees nothing.
pub move_lem :
    (h : Heap) (t : TypeE) (p : ℕ) (block : Block)
    → Owns h t p block
    → (value t h (from_move (object t p)).0 ≡ inr block)
      × (value t h (from_move (object t p)).1 ≡ inl undefined)
      × (destroy h (from_move (object t p)).1 ≡ inr h)
unfolding from_move value destroy load
move_lem h t p block o = (value-Owns h t p block o, rw (same_type_refl t), refl)

-- For two objects that point to blocks of their types: the assignment of one to the other takes
-- the value over, but the block that the other had stays allocated, and it does not point to it
-- any more.
pub assign_copy_lem :
    (h : Heap) (t t' : TypeE) (p p' : ℕ) (old block : Block)
    → Owns h t p old
    → Owns h t' p' block
    → (h' : Heap) × (c : AnyType) × (assign_copy h (object t p) (object t' p') ≡ inr (h', c))
      × (value t' h' c ≡ inr block)
      × (get_elem? h' p ≡ some (some old))
      × (c.p_value ≢ some p)
unfolding assign_copy
assign_copy_lem h t t' p p' old block o o' =
    let q = length h in
    (
      h ++ some block ∷ [],
      object t' q,
      from_copy-Owns h t' p' block o',
      value-Owns (h ++ some block ∷ []) t' q block (new-Owns h t' block o'.typed),
      (longer-Owns h (some block ∷ []) t p old o).held,
      λ e. omega (arith, some-injective q p e, get_elem?-inside h p (some old) o.held),
    )
