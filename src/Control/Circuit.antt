-- ===== src/Control/Circuit.antt =====
-- `_parse_circ_path` and `_parse_circ_entry` of control.py: the relays of a circuit.
pub mod Laws
pub mod Tests
use stem.Base.{
  ℕ, List, [], ◌∷◌, Text, Bool, true, false, not, codes, ◌==◌, has_char, split_on, if◌then◌else◌,
  Option, none, some,
}
use stem.Base.{
  Result, ok, err, value_error, index_error, protocol_error, ◌>>=◌, ◌>>◌, raise_if, map_result,
}
use stem.Util.TorTools.{is_valid_fingerprint, is_valid_nickname}

-- A fingerprint without its `$`, and a nickname.
abbrev pub Relay : Type 0
Relay = Option Text × Option Text

-- `fingerprint, nickname = pieces`
abbrev pub two_of : List Text → Result Relay
two_of (a ∷ b ∷ []) = ok (some a, some b)
two_of _ = err value_error

-- A fingerprint alone, or a nickname alone.
abbrev pub old_style : Text → Result Relay
old_style [] = err index_error
old_style (c ∷ s) = if c == b'$' then ok (some (c ∷ s), none) else ok (none, some (c ∷ s))

-- The parts of an entry.
unfoldable pub entry_parts : Text → Result Relay
unfolding has_char split_on
entry_parts entry =
    if has_char b'=' entry
    then two_of (split_on b'=' entry)
    else if has_char b'~' entry
    then two_of (split_on b'~' entry)
    else old_style entry

-- `fingerprint[1:]`
abbrev pub tail_of : Text → Text
tail_of [] = []
tail_of (c ∷ s) = s

abbrev pub check_fingerprint : Option Text → Result (Option Text)
check_fingerprint none = ok none
check_fingerprint (some f) =
    if not (is_valid_fingerprint f true) then err protocol_error else ok (some (tail_of f))

abbrev pub check_nickname : Option Text → Result (Option Text)
check_nickname none = ok none
check_nickname (some n) = if not (is_valid_nickname n) then err protocol_error else ok (some n)

-- `_parse_circ_entry(entry)`
unfoldable pub parse_circ_entry : Text → Result Relay
unfolding entry_parts
parse_circ_entry entry = do
  parts ← entry_parts entry
  fingerprint ← check_fingerprint parts.0
  nickname ← check_nickname parts.1
  ok (fingerprint, nickname)

-- `_parse_circ_path(path)`
unfoldable pub parse_circ_path : Option Text → Result (List Relay)
unfolding parse_circ_entry map_result split_on
parse_circ_path none = ok []
parse_circ_path (some []) = ok []
parse_circ_path (some (c ∷ s)) = map_result parse_circ_entry (split_on b',' (c ∷ s))
