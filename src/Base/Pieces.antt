-- ===== src/Base/Pieces.antt =====
-- Joining pieces by a separator that none of them has, and splitting them again.
use Prim.Native.Nat.{ℕ, ◌+◌}
use mathlib.Core.Path.{◌≡◌, refl}
use mathlib.Core.Bool.{false}
use mathlib.Core.List.{List, [], ◌∷◌, ◌++◌, reverse, reverse-cons}
use native.Mathlib.Omega.{arith}
use stem.Base.Lists.{length, All}
use stem.Base.Strings.{starts_with, ends_with, Text, has_char, count_char, split_on, join}

abbrev pub Lacks : ℕ → Text → Type 0
Lacks c s = has_char c s ≡ false

pub Lacks-append : (c : ℕ) (s t : Text) → Lacks c s → Lacks c t → Lacks c (s ++ t)
unfolding has_char
Lacks-append c [] t hs ht = ht
Lacks-append c (x ∷ s) t hs ht = ground (arith, Lacks-append c s t)

-- A text without the separator is one piece, and is joined in front of what was split.
split_on-piece : (c : ℕ) (p s : Text) → Lacks c p → split_on c (p ++ (c ∷ s)) ≡ p ∷ split_on c s
unfolding split_on has_char
split_on-piece c [] s h = ground arith
split_on-piece c (x ∷ p) s h = ground (arith, split_on-piece c p s)

split_on-last : (c : ℕ) (p : Text) → Lacks c p → split_on c p ≡ p ∷ []
unfolding split_on has_char
split_on-last c [] h = refl
split_on-last c (x ∷ p) h = ground (arith, split_on-last c p)

-- `sep.join(pieces).split(sep) == pieces`
pub split_on-join :
    (c : ℕ) (p : Text) (pieces : List Text)
    → All (Lacks c) (p ∷ pieces)
    → split_on c (join (c ∷ []) (p ∷ pieces)) ≡ p ∷ pieces
unfolding join
split_on-join c p [] h = split_on-last c p h.0
split_on-join c p (q ∷ pieces) h = rw (split_on-piece c p _ h.0, split_on-join c q pieces h.1)

count_char-append : (c : ℕ) (p s : Text) → count_char c (p ++ s) ≡ count_char c p + count_char c s
unfolding count_char
count_char-append c [] s = omega arith
count_char-append c (x ∷ p) s = ground (arith, count_char-append c p s)

count_char-Lacks : (c : ℕ) (p : Text) → Lacks c p → count_char c p ≡ 0
unfolding count_char has_char
count_char-Lacks c [] h = refl
count_char-Lacks c (x ∷ p) h = ground (arith, count_char-Lacks c p)

count_char_self : (c : ℕ) (s : Text) → count_char c (c ∷ s) ≡ count_char c s + 1
unfolding count_char
count_char_self c s = ground arith

pub count_char-join :
    (c : ℕ) (p : Text) (pieces : List Text)
    → All (Lacks c) (p ∷ pieces)
    → count_char c (join (c ∷ []) (p ∷ pieces)) ≡ length pieces
unfolding join
count_char-join c p [] h = count_char-Lacks c p h.0
count_char-join c p (q ∷ pieces) h =
    rw (count_char-append, count_char-Lacks c p h.0, count_char_self)
      (omega (arith, count_char-join c q pieces h.1))

Lacks-reverse : (c : ℕ) (s : Text) → Lacks c s → Lacks c (reverse s)
unfolding has_char
Lacks-reverse c [] h = refl
Lacks-reverse c (x ∷ s) h =
    rw reverse-cons
      (Lacks-append c (reverse s) (x ∷ []) (ground (arith, Lacks-reverse c s)) (ground arith))

starts-Lacks : (c : ℕ) (s : Text) → Lacks c s → starts_with (c ∷ []) s ≡ false
unfolding starts_with has_char
starts-Lacks c [] h = refl
starts-Lacks c (x ∷ s) h = ground arith

-- A text without a character does not end with it.
pub ends_with-Lacks : (c : ℕ) (s : Text) → Lacks c s → ends_with (c ∷ []) s ≡ false
unfolding ends_with
ends_with-Lacks c s h = starts-Lacks c (reverse s) (Lacks-reverse c s h)
