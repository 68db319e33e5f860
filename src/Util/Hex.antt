-- ===== src/Util/Hex.antt =====
-- Python's `int(s, 16)` and `'%04x' % n`.
use stem.Base.{ℕ, ◌+◌, ◌-◌, ◌*◌, ◌/◌, ◌%◌, ◌<◌, [], ◌∷◌, Bool, true, false}
use stem.Base.{
  ◌≡◌, ◌∙◌, arith, ltb, leb, ◌==◌, ◌&&◌, ◌||◌, if◌then◌else◌, Text, ap, has_char, codes,
  starts_with, ends_with, without_last, drop,
}
use stem.Base.{Option, none, some, Result, ok, err, value_error}
use stem.Base.Pieces.{Lacks}

abbrev pub hex_value : ℕ → Option ℕ
hex_value c =
    if leb b'0' c && leb c b'9'
    then some (c - b'0')
    else if leb b'a' c && leb c b'f'
    then some (c - 87)
    else if leb b'A' c && leb c b'F'
    then some (c - 55)
    else none

-- Digits, with single underscores between them.
unfoldable pub hex_run : ℕ → Bool → Text → Result ℕ
hex_run acc after_digit [] = if after_digit then ok acc else err value_error
hex_run acc after_digit (c ∷ s) = elim (hex_value c) [
  | some v ↦ hex_run (acc * 16 + v) true s
  | none ↦ (if c == b'_' && after_digit then hex_run acc false s else err value_error)
]

abbrev after_prefix : Text → Result ℕ
after_prefix [] = err value_error
after_prefix (c ∷ s) = hex_run 0 true (c ∷ s)

-- A line feed behind the digits is white space, which `int` drops; a prefix `0x` may stand first,
-- with an underscore behind it. Signs and other white space do not reach this call.
unfoldable pub int_16 : Text → Result ℕ
unfolding hex_run ends_with without_last starts_with
int_16 s =
    let t = if ends_with (codes "\n") s then without_last s else s in
    if starts_with (codes "0x") t || starts_with (codes "0X") t
    then after_prefix (drop 2 t)
    else hex_run 0 false t

abbrev pub hex_char : ℕ → ℕ
hex_char d = if ltb d 10 then b'0' + d else 87 + d

-- `'%04x' % n` of a number below 65536.
unfoldable pub hex_4 : ℕ → Text
hex_4 n =
    hex_char (n / 4096 % 16)
    ∷ hex_char (n / 256 % 16)
    ∷ hex_char (n / 16 % 16)
    ∷ hex_char (n % 16)
    ∷ []

pub hex_value-hex_char : (d : ℕ) → d < 16 → hex_value (hex_char d) ≡ some d
hex_value-hex_char d h = ground arith

-- `int('%04x' % n, 16) == n`
hex_run-hex_char :
    (acc d : ℕ) (after_digit : Bool) (s : Text)
    → d < 16
    → hex_run acc after_digit (hex_char d ∷ s) ≡ hex_run (acc * 16 + d) true s
unfolding hex_run
hex_run-hex_char acc d after_digit s h =
    ap
      (λ (v : Option ℕ). elim v [
        | some v ↦ hex_run (acc * 16 + v) true s
        | none ↦
            (if hex_char d == b'_' && after_digit then hex_run acc false s else err value_error)
      ])
      (hex_value-hex_char d h)

abbrev four_chars : ℕ → ℕ → ℕ → ℕ → Text
four_chars a b c d = hex_char a ∷ hex_char b ∷ hex_char c ∷ hex_char d ∷ []

-- Four characters with no `x` in the second place and no line feed at the end are only digits.
int_16-plain :
    (x y z w : ℕ)
    → (y == 120) ≡ false
    → (y == 88) ≡ false
    → (w == 10) ≡ false
    → int_16 (x ∷ y ∷ z ∷ w ∷ []) ≡ hex_run 0 false (x ∷ y ∷ z ∷ w ∷ [])
unfolding int_16 ends_with starts_with
int_16-plain x y z w hx hX hw = ground arith

hex_char_bounds :
    (d : ℕ)
    → d < 16
    → ((hex_char d == 120) ≡ false) × ((hex_char d == 88) ≡ false) × ((hex_char d == 10) ≡ false)
hex_char_bounds d h = ground arith

hex_run-four_chars :
    (a b c d : ℕ)
    → a < 16
    → b < 16
    → c < 16
    → d < 16
    → hex_run 0 false (four_chars a b c d) ≡ ok (((a * 16 + b) * 16 + c) * 16 + d)
hex_run-four_chars a b c d ha hb hc hd =
    rw
      (
        hex_run-hex_char 0 a false _ ha,
        hex_run-hex_char _ b true _ hb,
        hex_run-hex_char _ c true _ hc,
        hex_run-hex_char _ d true _ hd,
      )
      (unfold hex_run in ground arith)

pub int_16-hex_4 : (n : ℕ) → n < 65536 → int_16 (hex_4 n) ≡ ok n
unfolding hex_4
int_16-hex_4 n h =
    let second = hex_char_bounds (n / 256 % 16) (omega arith) in
    let last = hex_char_bounds (n % 16) (omega arith) in
    int_16-plain _ _ _ _ second.0 second.1 last.2
    ∙ hex_run-four_chars (n / 4096 % 16) (n / 256 % 16) (n / 16 % 16) (n % 16) (omega arith)
        (omega arith) (omega arith) (omega arith)
    ∙ ap ok digits
  where
    digits : ((n / 4096 % 16 * 16 + n / 256 % 16) * 16 + n / 16 % 16) * 16 + n % 16 ≡ n
    digits = omega arith

-- No colon is a hexadecimal digit.
pub hex_4-Lacks : (n : ℕ) → Lacks b':' (hex_4 n)
unfolding hex_4 has_char
hex_4-Lacks n = ground arith
