-- ===== src/Control/Line/Unescape.antt =====
-- Python's `codecs.escape_decode`, which response/__init__.py unescapes quoted text with.
use stem.Base.{
  ℕ, suc, ◌+◌, ◌-◌, ◌*◌, ◌%◌, [], ◌∷◌, ◌++◌, Text, Bytes, Bool, ◌&&◌, ◌||◌, leb, ltb, ◌==◌,
  if◌then◌else◌, Option, none, some,
}
use stem.Base.{Result, ok, err, value_error, ◌>>=◌}
use stem.Base.Utf8.{utf8_encode}

-- Where in an escape sequence the text is: behind the backslash, behind some octal digits with their
-- value and how many there are, behind `\x`, and behind its first digit.
pub data Mode : Type 0 where
  text escape hex : Mode
  octal : ℕ → ℕ → Mode
  low_digit : ℕ → Mode

unfoldable pub is_octal : ℕ → Bool
is_octal c = leb b'0' c && leb c b'7'

hex_value : ℕ → Option ℕ
hex_value c =
    if leb b'0' c && leb c b'9'
    then some (c - b'0')
    else if leb b'a' c && leb c b'f'
    then some (c - b'a' + 10)
    else if leb b'A' c && leb c b'F'
    then some (c - b'A' + 10)
    else none

unfoldable pub plain : ℕ → Bytes × Mode
plain c = if c == 92 then ([], escape) else (c ∷ [], text)

-- The character behind a backslash; an unknown one is kept with the backslash.
escaped : ℕ → Bytes × Mode
unfolding is_octal
escaped c =
    if c == 10
    then ([], text)
    else if (c == 92 || c == 39) || c == 34
    then (c ∷ [], text)
    else if c == b'b'
    then (8 ∷ [], text)
    else if c == b'f'
    then (12 ∷ [], text)
    else if c == b't'
    then (9 ∷ [], text)
    else if c == b'n'
    then (10 ∷ [], text)
    else if c == b'r'
    then (13 ∷ [], text)
    else if c == b'v'
    then (11 ∷ [], text)
    else if c == b'a'
    then (7 ∷ [], text)
    else if c == b'x'
    then ([], hex)
    else if is_octal c
    then ([], octal (c - b'0') 1)
    else (92 ∷ c ∷ [], text)

unfoldable pub step : Mode → ℕ → Result (Bytes × Mode)
unfolding plain escaped is_octal hex_value
step text c = ok (plain c)
step escape c = ok (escaped c)
step hex c = elim (hex_value c) [ none ↦ err value_error | some v ↦ ok ([], low_digit v) ]
step (low_digit v) c = elim (hex_value c) [
  | none ↦ err value_error
  | some w ↦ ok ((v * 16 + w) ∷ [], text)
]
step (octal v n) c =
    if is_octal c && ltb n 3
    then ok ([], octal (v * 8 + (c - b'0')) (suc n))
    else ok ((v % 256) ∷ (plain c).0, (plain c).1)

-- A backslash or an unfinished `\x` at the end raises.
unfoldable pub finish : Mode → Result Bytes
finish text = ok []
finish (octal v n) = ok ((v % 256) ∷ [])
finish _ = err value_error

unfoldable pub decode_from : Mode → Text → Result Bytes
unfolding step finish
decode_from mode [] = finish mode
decode_from mode (c ∷ s) = do (out, mode) ← step mode c; rest ← decode_from mode s; ok (out ++ rest)

-- A `str` is encoded first.
unfoldable pub escape_decode : Text → Result Bytes
unfolding decode_from
escape_decode s = utf8_encode s >>= decode_from text
