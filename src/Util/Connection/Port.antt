-- ===== src/Util/Connection/Port.antt =====
-- `is_valid_port` of util/connection.py
use stem.Base.{
  List, [], ◌∷◌, Bool, true, false, ltb, ◌==◌, ◌&&◌, ◌||◌, if◌then◌else◌, Text, text_eq, ℤ, pos,
  negsuc, ok, err,
}
use stem.Util.Decimal.{int_10, decimal_ℤ}

-- The range of an integer that was read.
abbrev pub in_port_range : ℤ → Bool → Bool
in_port_range (pos value) allow_zero =
    (allow_zero && value == 0) || (ltb 0 value && ltb value 65536)
in_port_range (negsuc value) allow_zero = false

-- A text that `int` reads, and that is how `str` writes the value; an error of `int` is caught.
unfoldable pub is_valid_port : Text → Bool → Bool
unfolding int_10 text_eq decimal_ℤ
is_valid_port entry allow_zero = elim (int_10 entry) [
  | ok value ↦ (if text_eq (decimal_ℤ value) entry then in_port_range value allow_zero else false)
  | err e ↦ false
]

-- An integer.
abbrev pub is_valid_port_int : ℤ → Bool → Bool
is_valid_port_int = in_port_range

-- A list of texts, each of which is to be valid.
unfoldable pub is_valid_ports : List Text → Bool → Bool
unfolding is_valid_port
is_valid_ports [] allow_zero = true
is_valid_ports (port ∷ ports) allow_zero =
    is_valid_port port allow_zero && is_valid_ports ports allow_zero
