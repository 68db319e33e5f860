-- ===== src/Util/TorTools/Laws.antt =====
-- Bytes that are written in hexadecimal digits, for util/tor_tools.py.
use stem.Base.{
  ℕ, ◌+◌, ◌*◌, ◌/◌, ◌%◌, ◌<◌, [], ◌∷◌, Text, Bytes, Bool, true, false, ◌&&◌, ◌||◌, ltb, ◌==◌,
  if◌then◌else◌, length, lstrip, rstrip, is_space, Option, none, some, All, ◌≡◌, refl, ap, ◌∙◌,
  arith, ==_iff, Bool-cases, inl, inr, starts_with, is_empty_text, has_char, value_error,
}
use stem.Base.{ok, err}
use stem.Base.Utf8.{IsAscii}
use stem.Base.Pieces.{Lacks, ends_with-Lacks}
use stem.Util.Hex.{int_16, hex_value, hex_run}
use stem.Util.TorTools.{is_hex_digits, is_hex_number, is_number, drop_sign, hex_pair, unhexlify}

-- A capital hexadecimal digit.
abbrev pub digit : ℕ → ℕ
digit d = if ltb d 10 then b'0' + d else 55 + d

abbrev pub hexlify : Bytes → Text
hexlify [] = []
hexlify (b ∷ s) = digit (b / 16) ∷ digit (b % 16) ∷ hexlify s

pair_lem :
    (b : ℕ) → b < 256 → hex_pair (hex_value (digit (b / 16))) (hex_value (digit (b % 16))) ≡ ok b
pair_lem b h = ground arith

pub unhexlify-hexlify : (s : Bytes) → All (λ b. b < 256) s → unhexlify (hexlify s) ≡ ok s
unfolding unhexlify
unhexlify-hexlify [] h = refl
unhexlify-hexlify (b ∷ s) h = rw (pair_lem b h.0, unhexlify-hexlify s h.1)

pub length-hexlify : (s : Bytes) → length (hexlify s) ≡ 2 * length s
length-hexlify [] = refl
length-hexlify (b ∷ s) = omega (arith, length-hexlify s)

digit_value : (d : ℕ) → d < 16 → hex_value (digit d) ≡ some d
digit_value d h = ground arith

hex_run-digit :
    (acc d : ℕ) (after : Bool) (s : Text)
    → d < 16
    → hex_run acc after (digit d ∷ s) ≡ hex_run (acc * 16 + d) true s
unfolding hex_run
hex_run-digit acc d after s h =
    ap
      (λ (v : Option ℕ). elim v [
        | some v ↦ hex_run (acc * 16 + v) true s
        | none ↦ (if digit d == b'_' && after then hex_run acc false s else err value_error)
      ])
      (digit_value d h)

high : (b : ℕ) → b < 256 → b / 16 < 16
high b h = omega arith

low : (b : ℕ) → b % 16 < 16
low b = omega arith

run_byte :
    (acc b : ℕ) (after : Bool) (s : Text)
    → b < 256
    → hex_run acc after (digit (b / 16) ∷ digit (b % 16) ∷ s)
      ≡ hex_run ((acc * 16 + b / 16) * 16 + b % 16) true s
run_byte acc b after s h =
    hex_run-digit acc (b / 16) after (digit (b % 16) ∷ s) (high b h)
    ∙ hex_run-digit (acc * 16 + b / 16) (b % 16) true s (low b)

run_bytes :
    (acc : ℕ) (s : Bytes) → All (λ b. b < 256) s → is_number (hex_run acc true (hexlify s)) ≡ true
run_bytes acc [] h = unfold hex_run in refl
run_bytes acc (b ∷ s) h =
    rw (run_byte acc b true (hexlify s) h.0) (run_bytes ((acc * 16 + b / 16) * 16 + b % 16) s h.1)

-- A digit is no space, no sign, no line feed, no x and no equals sign.
abbrev pub Plain : ℕ → Type 0
Plain c =
    (is_space c ≡ false)
    × ((c == b'+' || c == b'-') ≡ false)
    × ((10 == c) ≡ false)
    × ((b'x' == c) ≡ false)
    × ((b'X' == c) ≡ false)
    × ((b'=' == c) ≡ false)

digit-Plain : (d : ℕ) → d < 16 → Plain (digit d)
digit-Plain d h = ground arith

pub hexlify-Plain : (s : Bytes) → All (λ b. b < 256) s → All Plain (hexlify s)
hexlify-Plain [] h = tt
hexlify-Plain (b ∷ s) h =
    (digit-Plain (b / 16) (high b h.0), (digit-Plain (b % 16) (low b), hexlify-Plain s h.1))

and_false : (e : Bool) (c : ℕ) (s : Text) → (if e && false then [] else c ∷ s) ≡ c ∷ s
and_false true c s = refl
and_false false c s = refl

digit-lt : (d : ℕ) → d < 16 → digit d < 128
digit-lt d h = ground arith

pub hexlify-IsAscii : (s : Bytes) → All (λ b. b < 256) s → IsAscii (hexlify s)
hexlify-IsAscii [] h = tt
hexlify-IsAscii (b ∷ s) h =
    (digit-lt (b / 16) (high b h.0), (digit-lt (b % 16) (low b), hexlify-IsAscii s h.1))

rstrip-Plain : (s : Text) → All Plain s → rstrip s ≡ s
unfolding rstrip
rstrip-Plain [] h = refl
rstrip-Plain (c ∷ s) h = rw (rstrip-Plain s h.1, h.0.0) (and_false (is_empty_text s) c s)

Lacks-Plain : (s : Text) → All Plain s → Lacks 10 s
unfolding has_char
Lacks-Plain [] h = refl
Lacks-Plain (c ∷ s) h = rw (h.0.2) (Lacks-Plain s h.1)

int_16-Plain :
    (x y : ℕ) (s : Text) → All Plain (x ∷ y ∷ s) → int_16 (x ∷ y ∷ s) ≡ hex_run 0 false (x ∷ y ∷ s)
unfolding int_16 starts_with
int_16-Plain x y s h =
    rw (ends_with-Lacks 10 (x ∷ y ∷ s) (Lacks-Plain (x ∷ y ∷ s) h), h.1.0.3, h.1.0.4)
      (elim (Bool-cases (b'0' == x)) [ inl zero_first ↦ rw zero_first | inr other ↦ rw other ])

stripped : (c : ℕ) (s : Text) → All Plain (c ∷ s) → drop_sign (rstrip (lstrip (c ∷ s))) ≡ c ∷ s
unfolding lstrip
stripped c s h = rw (h.0.0, rstrip-Plain (c ∷ s) h, h.0.1)

-- Bytes that are written in hexadecimal digits are taken for that many digits, if there are any.
pub is_hex_digits-hexlify :
    (b : ℕ) (s : Bytes)
    → All (λ b. b < 256) (b ∷ s)
    → is_hex_digits (hexlify (b ∷ s)) (2 * length (b ∷ s)) ≡ true
unfolding is_hex_digits is_hex_number
is_hex_digits-hexlify b s h =
    let plain = hexlify-Plain (b ∷ s) h in
    let right : (length (hexlify (b ∷ s)) == 2 * length (b ∷ s)) ≡ true =
      (==_iff _ _).1 (length-hexlify (b ∷ s)) in
    rw
      (
        right,
        stripped (digit (b / 16)) (digit (b % 16) ∷ hexlify s) plain,
        int_16-Plain (digit (b / 16)) (digit (b % 16)) (hexlify s) plain,
        run_byte 0 b false (hexlify s) h.0,
      )
      (run_bytes ((0 * 16 + b / 16) * 16 + b % 16) s h.1)
