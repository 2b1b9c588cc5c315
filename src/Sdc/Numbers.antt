-- ===== src/Sdc/Numbers.antt =====
-- What src/rtl_buddy_cdc/sdc.py uses of Python's numbers: `float(word)`, `int(word)`, and the period
-- of a generated clock. Floats are a parameter; of the integers only the sign and `max` are read.
use rtl_buddy_cdc.Base.{ℕ, suc, String, Bool, true, false, Option}

-- `negsuc n` is -(n + 1).
pub data ℤ : Type 0 where
  pos : ℕ → ℤ
  negsuc : ℕ → ℤ

-- `0 < n`
unfoldable pub is_positive : ℤ → Bool
is_positive (pos ℕ.zero) = false
is_positive (pos (suc n)) = true
is_positive (negsuc n) = false

-- `max(n, 1)`
unfoldable pub max_one : ℤ → ℤ
max_one (pos ℕ.zero) = pos 1
max_one (pos (suc n)) = pos (suc n)
max_one (negsuc n) = pos 1

-- `none` is a `ValueError`. `scale p d m` is `p * d / m`, called with a positive `m`.
pub record Numbers : Type 1 where
  pub Float : Type 0
  pub zero_float : Float
  pub parse_float : String → Option Float
  pub parse_int : String → Option ℤ
  pub scale : Float → ℤ → ℤ → Float
