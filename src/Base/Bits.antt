-- ===== src/Base/Bits.antt =====
-- Python's `&` on integers that are not negative.
use stem.Base.{ℕ, zero, suc, ◌+◌, ◌*◌, ◌/◌, ◌%◌}

-- Of the lowest `w` bits, the highest bit last.
unfoldable pub bit_and : ℕ → ℕ → ℕ → ℕ
bit_and zero a b = 0
bit_and (suc w) a b = a % 2 * (b % 2) + 2 * bit_and w (a / 2) (b / 2)
