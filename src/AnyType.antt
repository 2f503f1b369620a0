-- ===== src/AnyType.antt =====
-- any_type/AnyType.hpp: an object that holds an integer, a floating-point number or a string, by a tag
-- and an untyped pointer to a block of its own. The free store is explicit: a block's address is its
-- index, and a block that was freed is `none`.
pub mod Objects
pub mod Tests
use c_plus_plus.Prelude.{
  ℕ, ◌+◌, ◌-◌, ◌/◌, ◌^◌, ◌<◌, ap, ◌⊎◌, inl, inr, Bool, true, false, not, Option, none, some, List,
  [], ◌∷◌, ◌++◌, ltb, if◌then◌else◌, length, get_elem?, set,
}
use c_plus_plus.Prelude.Chars.{Bytes}

-- `TYPE_E`
pub data TypeE : Type 0 where
  integer number string : TypeE

abbrev pub same_type : TypeE → TypeE → Bool
same_type integer integer = true
same_type integer number = false
same_type integer string = false
same_type number integer = false
same_type number number = true
same_type number string = false
same_type string integer = false
same_type string number = false
same_type string string = true

-- The 64 bits of an `int64_t` or of a `double`, or the bytes of a `string`.
pub data Block : Type 0 where
  int64 : ℕ → Block
  double : ℕ → Block
  text : Bytes → Block

abbrev pub Heap : Type 0
Heap = List (Option Block)

-- `enType` is `none` where it was never set, `pValue` is `none` for the null pointer.
pub record AnyType : Type 0 where
  pub en_type : Option TypeE
  pub p_value : Option ℕ

-- "type error, current type is <type>", or undefined behaviour: a null or freed pointer is used, or a
-- tag that was never set.
pub data Fault : Type 0 where
  type_error : TypeE → Fault
  undefined : Fault

abbrev pub has_type : TypeE → Block → Bool
has_type integer (int64 v) = true
has_type integer (double v) = false
has_type integer (text s) = false
has_type number (int64 v) = false
has_type number (double v) = true
has_type number (text s) = false
has_type string (int64 v) = false
has_type string (double v) = false
has_type string (text s) = true

-- The block at a pointer that is cast to the pointer of a type.
pub load : TypeE → Heap → Option ℕ → Option Block
load t h none = none
load t h (some p) = elim (get_elem? h p) [
  | none ↦ none
  | some b ↦ elim b [ none ↦ none | some block ↦ if has_type t block then some block else none ]
]

-- `new`, and the two fields that are set.
unfoldable pub construct : TypeE → Block → Heap → Heap × AnyType
construct t block h = (h ++ some block ∷ [], record { en_type = some t; p_value = some (length h) })

-- The conversion of an `int32_t` to an `int64_t`, on their bits.
abbrev pub sign_extend : ℕ → ℕ
sign_extend v = if ltb v (2 ^ 31) then v else v + 2 ^ 64 - 2 ^ 32

-- The constructors. The conversion of a `float` to a `double` is the parameter `widen`.
abbrev pub default_object : AnyType
default_object = record { en_type = none; p_value = none }

unfoldable pub from_int32 : ℕ → Heap → Heap × AnyType
from_int32 v h = construct integer (int64 (sign_extend v)) h

unfoldable pub from_int64 : ℕ → Heap → Heap × AnyType
from_int64 v h = construct integer (int64 v) h

unfoldable pub from_float : (ℕ → ℕ) → ℕ → Heap → Heap × AnyType
from_float widen v h = construct number (double (widen v)) h

unfoldable pub from_double : ℕ → Heap → Heap × AnyType
from_double v h = construct number (double v) h

unfoldable pub from_string : Bytes → Heap → Heap × AnyType
from_string s h = construct string (text s) h

pub from_copy : Heap → AnyType → Fault ⊎ (Heap × AnyType)
from_copy h other = elim other.en_type [
  | none ↦ inl undefined
  | some t ↦ elim (load t h other.p_value) [
    | none ↦ inl undefined
    | some block ↦ inr (construct t block h)
  ]
]

-- The object, and what is left of the other one.
pub from_move : AnyType → AnyType × AnyType
from_move other =
    (record { en_type = other.en_type; p_value = other.p_value }, record other { p_value = none })

-- `~AnyType`
pub destroy : Heap → AnyType → Fault ⊎ Heap
destroy h a = elim a.en_type [
  | none ↦ inl undefined
  | some t ↦ elim a.p_value [
    | none ↦ inr h
    | some p ↦ elim (load t h (some p)) [ none ↦ inl undefined | some block ↦ inr (set h p none) ]
  ]
]

-- The body that the assignments of a value share.
unfoldable pub assign : TypeE → Block → Heap → AnyType → Fault ⊎ Heap
assign t block h a = elim a.en_type [
  | none ↦ inl undefined
  | some t' ↦
      if same_type t t'
      then elim a.p_value [
        | none ↦ inl undefined
        | some p ↦ elim (load t h (some p)) [
          | none ↦ inl undefined
          | some old ↦ inr (set h p (some block))
        ]
      ]
      else inl (type_error t')
]

-- The assignments of an `int32_t`, an `int64_t`, a `double` and a `string`.
unfoldable pub assign_int32 : ℕ → Heap → AnyType → Fault ⊎ Heap
assign_int32 v h a = assign integer (int64 (sign_extend v)) h a

unfoldable pub assign_int64 : ℕ → Heap → AnyType → Fault ⊎ Heap
assign_int64 v h a = assign integer (int64 v) h a

unfoldable pub assign_double : ℕ → Heap → AnyType → Fault ⊎ Heap
assign_double v h a = assign number (double v) h a

unfoldable pub assign_string : Bytes → Heap → AnyType → Fault ⊎ Heap
assign_string s h a = assign string (text s) h a

-- The assignment of another object sets both fields and frees nothing.
pub assign_copy : Heap → AnyType → AnyType → Fault ⊎ (Heap × AnyType)
assign_copy h a other = from_copy h other

unfoldable pub assign_move : AnyType → AnyType → AnyType × AnyType
assign_move a other = from_move other

-- `value<T>`
pub value : TypeE → Heap → AnyType → Fault ⊎ Block
value t h a = elim a.en_type [
  | none ↦ inl undefined
  | some t' ↦
      if same_type t t'
      then elim (load t h a.p_value) [ none ↦ inl undefined | some block ↦ inr block ]
      else inl (type_error t')
]

-- `type`, `isInteger`, `isNumber`, `isString`; `none` reads a tag that was never set.
abbrev pub type_of : AnyType → Option TypeE
type_of a = a.en_type

abbrev pub is_type : TypeE → AnyType → Option Bool
is_type t a = elim a.en_type [ none ↦ none | some t' ↦ some (same_type t t') ]
