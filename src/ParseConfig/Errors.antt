-- ===== src/ParseConfig/Errors.antt =====
-- What parse_config/ParseConfig.hpp throws.
use c_plus_plus.Prelude.{ℕ}
use c_plus_plus.Prelude.Chars.{Bytes}

pub data Error : Type 0 where
  -- "<path> open failed"
  open_failed : Bytes → Error
  -- "config format error at lineNum=<line>: <text>"
  bad_section : ℕ → Bytes → Error
  -- "config format error at line=<line>: <text>"
  bad_item : ℕ → Bytes → Error
  -- "<section> no such config item: <name>"
  no_item_in : Bytes → Bytes → Error
  -- "no such config item: <name>"
  no_item : Bytes → Error

pub data Result {ℓ} (A : Type ℓ) : Type ℓ where
  ok : A → Result A
  err : Error → Result A
