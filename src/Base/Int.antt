-- ===== src/Base/Int.antt =====
-- Python's integers, and the values that are an integer or a string.
use Prim.Native.Nat.{ℕ}
use Prim.Native.String.{String}

-- `negsuc n` is -(n + 1).
pub data ℤ : Type 0 where
  pos : ℕ → ℤ
  negsuc : ℕ → ℤ

pub data Value : Type 0 where
  int : ℤ → Value
  str : String → Value

-- A natural number as such a value.
abbrev pub num : ℕ → Value
num n = int (pos n)
