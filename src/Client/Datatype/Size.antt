-- ===== src/Client/Datatype/Size.antt =====
-- `split` and `Size` of client/datatype.py: unsigned network-order integers of a fixed width.
pub mod Laws
use Prim.Native.String.{String}
use stem.Base.{ℕ, zero, suc, ◌+◌, ◌*◌, ◌/◌, ◌%◌, ◌^◌, ◌<◌, List, [], ◌∷◌, ◌++◌, Bool, true, false}
use stem.Base.{ltb, ◌==◌, if◌then◌else◌, Bytes, length, take, drop, Value, int, str, pos, negsuc}
use stem.Base.{Result, ok, err, value_error, overflow_error, ◌>>=◌, raise_if, not}

-- `content[:size], content[size:]`
abbrev pub split : Bytes → ℕ → Bytes × Bytes
split content size = (take size content, drop size content)

pub record Size : Type 0 where
  pub name : String
  pub size : ℕ

abbrev pub char : Size
char = record { name = "CHAR"; size = 1 }

abbrev pub short : Size
short = record { name = "SHORT"; size = 2 }

abbrev pub long : Size
long = record { name = "LONG"; size = 4 }

abbrev pub long_long : Size
long_long = record { name = "LONG_LONG"; size = 8 }

-- `v.to_bytes(w, 'big')` of a value that fits `w` bytes.
unfoldable pub to_bytes : ℕ → ℕ → Bytes
to_bytes zero v = []
to_bytes (suc w) v = to_bytes w (v / 256) ++ (v % 256 ∷ [])

-- `int.from_bytes(packed, 'big')`, with the value of the bytes before.
unfoldable pub from_bytes : ℕ → Bytes → ℕ
from_bytes acc [] = acc
from_bytes acc (b ∷ bs) = from_bytes (acc * 256 + b) bs

-- `to_bytes` raises an OverflowError for a value that is too large, which passes through; for a
-- negative value or no integer it is turned into a ValueError.
unfoldable pub pack : Size → Value → Result Bytes
pack s (int (pos v)) = if ltb v (256 ^ s.size) then ok (to_bytes s.size v) else err overflow_error
pack s (int (negsuc v)) = err value_error
pack s (str v) = err value_error

unfoldable pub unpack : Size → Bytes → Result ℕ
unpack s packed = if s.size == length packed then ok (from_bytes 0 packed) else err value_error

unfoldable pub pop : Size → Bytes → Result (ℕ × Bytes)
unfolding unpack
pop s packed = do
  let (to_unpack, remainder) = split packed s.size
  v ← unpack s to_unpack
  ok (v, remainder)

abbrev pub IsByte : ℕ → Type 0
IsByte b = b < 256
