-- ===== src/Util/Decimal.antt =====
-- Python's `str(n)` and `int(s)` on decimal text, and the round trip between them.
pub mod Laws
use stem.Base.{
  ℕ, zero, suc, ◌+◌, ◌-◌, ◌*◌, ◌/◌, ◌%◌, ◌≤◌, ◌<◌, List, [], ◌∷◌, ◌++◌, Bool, true, false,
}
use stem.Base.{
  ◌≡◌, refl, sym, ap, ◌∙◌, arith, ltb, leb, ◌==◌, ◌&&◌, if◌then◌else◌, Text, digits_value, isdigit,
  all_digits, length, length-append, Bool-cases, inl, inr, is_digit, lstrip, rstrip, Result, ok,
  err, value_error, ◌>>=◌, ℤ, pos, negsuc,
}

-- Enough fuel: each digit divides the number by ten.
unfoldable pub decimal_digits : ℕ → ℕ → Text
decimal_digits zero n = (b'0' + n % 10) ∷ []
decimal_digits (suc fuel) n =
    let rest = decimal_digits fuel (n / 10) in
    if ltb n 10 then (b'0' + n) ∷ [] else rest ++ ((b'0' + n % 10) ∷ [])

-- `str(n)`
unfoldable pub decimal : ℕ → Text
unfolding decimal_digits
decimal n = decimal_digits n n

-- Digits, with single underscores between them.
unfoldable pub decimal_run : ℕ → Bool → Text → Result ℕ
decimal_run acc after_digit [] = if after_digit then ok acc else err value_error
decimal_run acc after_digit (c ∷ s) = elim (is_digit c) [
  | true ↦ decimal_run (acc * 10 + (c - b'0')) true s
  | false ↦ (if c == b'_' && after_digit then decimal_run acc false s else err value_error)
]

abbrev pub negate : ℕ → ℤ
negate zero = pos 0
negate (suc n) = negsuc n

-- The sign, if there is one, and the digits.
unfoldable pub signed_run : Text → Result ℤ
unfolding decimal_run
signed_run [] = err value_error
signed_run (c ∷ s) =
    if c == b'-'
    then (do n ← decimal_run 0 false s; ok (negate n))
    else if c == b'+'
    then (do n ← decimal_run 0 false s; ok (pos n))
    else (do n ← decimal_run 0 false (c ∷ s); ok (pos n))

-- `int(s)`
unfoldable pub int_10 : Text → Result ℤ
unfolding signed_run lstrip rstrip
int_10 s = signed_run (rstrip (lstrip s))

-- `str(n)` of any integer.
unfoldable pub decimal_ℤ : ℤ → Text
unfolding decimal
decimal_ℤ (pos n) = decimal n
decimal_ℤ (negsuc n) = b'-' ∷ decimal (suc n)
