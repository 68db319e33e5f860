-- ===== src/Util/Decimal/Laws.antt =====
-- `int(str(n)) == n`, and what `int` makes of a text of digits.
use stem.Base.{ℕ, zero, suc, ◌+◌, ◌-◌, ◌*◌, ◌/◌, ◌%◌, ◌≤◌, ◌<◌, [], ◌∷◌, ◌++◌, true}
use stem.Base.{
  ◌≡◌, refl, ◌∙◌, arith, ltb, Text, digits_value, isdigit, all_digits, length, length-append,
  Bool-cases, inl, inr, lstrip, rstrip, ok, pos,
}
use stem.Util.Decimal.{decimal, decimal_digits, decimal_run, signed_run, int_10}

pub digits_value-append :
    (acc : ℕ) (s : Text) (c : ℕ)
    → digits_value acc (s ++ (c ∷ [])) ≡ digits_value acc s * 10 + (c - b'0')
unfolding digits_value
digits_value-append acc [] c = refl
digits_value-append acc (d ∷ s) c = digits_value-append (acc * 10 + (d - b'0')) s c

digits_value-decimal_digits : (fuel n : ℕ) → n ≤ fuel → digits_value 0 (decimal_digits fuel n) ≡ n
unfolding decimal_digits
digits_value-decimal_digits zero n h = unfold digits_value in omega arith
digits_value-decimal_digits (suc fuel) n h = elim (Bool-cases (ltb n 10)) [
  | inl small ↦ rw small (unfold digits_value in omega arith)
  | inr big ↦
      let smaller : n / 10 ≤ fuel = ground arith in
      rw (big, digits_value-append)
        (omega (arith, digits_value-decimal_digits fuel (n / 10) smaller))
]

-- `int(str(n)) == n`
pub digits_value-decimal : (n : ℕ) → digits_value 0 (decimal n) ≡ n
unfolding decimal
digits_value-decimal n = digits_value-decimal_digits n n (omega arith)

all_digits-append :
    (s : Text) (d : ℕ) → d < 10 → all_digits s ≡ true → all_digits (s ++ ((b'0' + d) ∷ [])) ≡ true
unfolding all_digits
all_digits-append [] d h e = ground arith
all_digits-append (c ∷ s) d h e = ground (arith, all_digits-append s d h)

all_digits-decimal_digits : (fuel n : ℕ) → all_digits (decimal_digits fuel n) ≡ true
unfolding decimal_digits
all_digits-decimal_digits zero n = unfold all_digits in ground arith
all_digits-decimal_digits (suc fuel) n = elim (Bool-cases (ltb n 10)) [
  | inl small ↦ rw small (unfold all_digits in ground arith)
  | inr big ↦
      rw big (all_digits-append _ (n % 10) (omega arith) (all_digits-decimal_digits fuel (n / 10)))
]

-- `str(n).isdigit()`
isdigit-all_digits : (s : Text) → 0 < length s → all_digits s ≡ true → isdigit s ≡ true
unfolding isdigit
isdigit-all_digits [] h e = absurd (omega arith)
isdigit-all_digits (c ∷ s) h e = e

length-decimal_digits : (fuel n : ℕ) → 0 < length (decimal_digits fuel n)
unfolding decimal_digits
length-decimal_digits zero n = omega arith
length-decimal_digits (suc fuel) n = elim (Bool-cases (ltb n 10)) [
  | inl small ↦ rw small (omega arith)
  | inr big ↦ rw (big, length-append) (omega arith)
]

pub isdigit-decimal : (n : ℕ) → isdigit (decimal n) ≡ true
unfolding decimal
isdigit-decimal n =
    isdigit-all_digits (decimal_digits n n) (length-decimal_digits n n)
      (all_digits-decimal_digits n n)

all_digits-isdigit : (s : Text) → isdigit s ≡ true → all_digits s ≡ true
unfolding isdigit
all_digits-isdigit [] h = cc
all_digits-isdigit (c ∷ s) h = h

pub all_digits-decimal : (n : ℕ) → all_digits (decimal n) ≡ true
all_digits-decimal n = all_digits-isdigit (decimal n) (isdigit-decimal n)

pub lstrip-all_digits : (s : Text) → all_digits s ≡ true → lstrip s ≡ s
unfolding lstrip all_digits
lstrip-all_digits [] h = refl
lstrip-all_digits (c ∷ s) h = ground arith

rstrip-all_digits : (s : Text) → all_digits s ≡ true → rstrip s ≡ s
unfolding rstrip all_digits
rstrip-all_digits [] h = refl
rstrip-all_digits (c ∷ s) h = ground (arith, rstrip-all_digits s)

decimal_run-all_digits :
    (s : Text) (acc : ℕ) → all_digits s ≡ true → decimal_run acc true s ≡ ok (digits_value acc s)
unfolding decimal_run all_digits digits_value
decimal_run-all_digits [] acc h = refl
decimal_run-all_digits (c ∷ s) acc h =
    ground (arith, decimal_run-all_digits s (acc * 10 + (c - b'0')))

signed_run-isdigit : (s : Text) → isdigit s ≡ true → signed_run s ≡ ok (pos (digits_value 0 s))
unfolding signed_run isdigit decimal_run all_digits digits_value
signed_run-isdigit [] h = cc
signed_run-isdigit (c ∷ s) h = ground (arith, decimal_run-all_digits s (0 * 10 + (c - b'0')))

-- A text of digits is read as the number that the digits stand for.
pub int_10-isdigit : (s : Text) → isdigit s ≡ true → int_10 s ≡ ok (pos (digits_value 0 s))
unfolding int_10
int_10-isdigit s h =
    let digits : all_digits s ≡ true = all_digits-isdigit s h in
    rw (lstrip-all_digits s digits, rstrip-all_digits s digits) (signed_run-isdigit s h)

-- `int(str(n)) == n`
pub int_10-decimal : (n : ℕ) → int_10 (decimal n) ≡ ok (pos n)
int_10-decimal n = int_10-isdigit (decimal n) (isdigit-decimal n) ∙ rw digits_value-decimal
