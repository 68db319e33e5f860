-- ===== src/Util/TorTools.antt =====
-- util/tor_tools.py: whether text may be a fingerprint, a nickname or an identifier.
pub mod Laws
use stem.Base.{
  ℕ, zero, suc, ◌+◌, ◌*◌, List, [], ◌∷◌, ◌++◌, Text, Bytes, Bool, true, false, ◌&&◌, ◌||◌, not, leb,
  ltb, ◌==◌, if◌then◌else◌, length, drop, lstrip, rstrip, codes, Option, none, some, up_to_newline,
}
use stem.Base.{Result, ok, err, value_error, ◌>>=◌}
use stem.Util.Hex.{int_16, hex_value}

abbrev pub drop_sign : Text → Text
drop_sign [] = []
drop_sign (c ∷ s) = if c == b'+' || c == b'-' then s else c ∷ s

abbrev pub is_number : Result ℕ → Bool
is_number (ok n) = true
is_number (err e) = false

-- Whether `int(entry, 16)` gives a number: white space around it and a sign are skipped.
unfoldable pub is_hex_number : Text → Bool
is_hex_number s = is_number (int_16 (drop_sign (rstrip (lstrip s))))

-- `is_hex_digits(entry, count)`
unfoldable pub is_hex_digits : Text → ℕ → Bool
is_hex_digits s count = if not (length s == count) then false else is_hex_number s

-- `is_valid_fingerprint(entry, check_prefix)`
unfoldable pub is_valid_fingerprint : Text → Bool → Bool
unfolding is_hex_digits is_hex_number
is_valid_fingerprint [] true = false
is_valid_fingerprint (c ∷ s) true = if not (c == b'$') then false else is_hex_digits s 40
is_valid_fingerprint s false = is_hex_digits s 40

is_alnum : ℕ → Bool
is_alnum c =
    (leb b'a' c && leb c b'z') || ((leb b'A' c && leb c b'Z') || (leb b'0' c && leb c b'9'))

all_alnum : Text → Bool
unfolding is_alnum
all_alnum [] = true
all_alnum (c ∷ s) = is_alnum c && all_alnum s

-- `[a-zA-Z0-9]{1,most}`
unfoldable pub alnum_between : ℕ → Text → Bool
unfolding all_alnum
alnum_between most s = ltb 0 (length s) && (leb (length s) most && all_alnum s)

-- `is_valid_nickname(entry)`
unfoldable pub is_valid_nickname : Text → Bool
unfolding alnum_between up_to_newline
is_valid_nickname s = up_to_newline (alnum_between 19) s

-- `is_valid_circuit_id(entry)`, and the same for streams and connections.
unfoldable pub is_valid_circuit_id : Text → Bool
unfolding alnum_between up_to_newline
is_valid_circuit_id s = up_to_newline (alnum_between 16) s

unfoldable pub is_valid_stream_id : Text → Bool
unfolding is_valid_circuit_id
is_valid_stream_id s = is_valid_circuit_id s

unfoldable pub is_valid_connection_id : Text → Bool
unfolding is_valid_circuit_id
is_valid_connection_id s = is_valid_circuit_id s

abbrev pub hex_pair : Option ℕ → Option ℕ → Result ℕ
hex_pair (some a) (some b) = ok (a * 16 + b)
hex_pair a b = err value_error

-- Python's `binascii.unhexlify`, whose error is a ValueError.
unfoldable pub unhexlify : Text → Result Bytes
unhexlify [] = ok []
unhexlify (c ∷ []) = err value_error
unhexlify (c ∷ d ∷ s) = do
  byte ← hex_pair (hex_value c) (hex_value d)
  rest ← unhexlify s
  ok (byte ∷ rest)
