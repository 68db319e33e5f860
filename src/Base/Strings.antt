-- ===== src/Base/Strings.antt =====
-- Python's `str` and `bytes` as lists of code points and of bytes, with the methods that the
-- program calls. Text is taken to be ASCII: the digits of other scripts, which `str.isdigit` takes
-- too, are not modelled.
use Prim.Native.Char.{code}
use Prim.Native.String.{String}
use Prim.Native.Nat.{ℕ, ◌+◌, ◌-◌, ◌*◌}
use mathlib.Core.Bool.{Bool, true, false, ◌&&◌, ◌||◌}
use mathlib.Core.List.{List, [], ◌∷◌, ◌++◌, reverse}
use mathlib.Core.Option.{Option, none, some}
use stem.Base.Tests.{leb, ◌==◌, if◌then◌else◌}
use stem.Base.Lists.{take, drop}

abbrev pub Text : Type 0
Text = List ℕ

abbrev pub Bytes : Type 0
Bytes = List ℕ

abbrev pub codes : String → Text
codes String.[] = []
codes (String.◌∷◌ c s) = code c ∷ codes s

-- `a == b` on texts.
unfoldable pub text_eq : Text → Text → Bool
text_eq [] [] = true
text_eq (a ∷ s) (b ∷ t) = a == b && text_eq s t
text_eq _ _ = false

-- `s.startswith(prefix)`, `s.endswith(suffix)`
unfoldable pub starts_with : Text → Text → Bool
starts_with [] s = true
starts_with (p ∷ ps) [] = false
starts_with (p ∷ ps) (c ∷ s) = p == c && starts_with ps s

unfoldable pub ends_with : Text → Text → Bool
unfolding starts_with
ends_with suffix s = starts_with (reverse suffix) (reverse s)

-- `c in s`, and `s.count(c)` for one character
unfoldable pub has_char : ℕ → Text → Bool
has_char c [] = false
has_char c (x ∷ s) = c == x || has_char c s

unfoldable pub count_char : ℕ → Text → ℕ
count_char c [] = 0
count_char c (x ∷ s) = let rest = count_char c s in if c == x then rest + 1 else rest

-- The first piece of `s.split(c)`, and what follows the separator, if there is one.
unfoldable pub split_once : ℕ → Text → Text × Option Text
split_once c [] = ([], none)
split_once c (x ∷ s) =
    let (piece, rest) = split_once c s in if c == x then ([], some s) else (x ∷ piece, rest)

-- Puts one character before the first piece.
abbrev pub cons_piece : ℕ → List Text → List Text
cons_piece x [] = (x ∷ []) ∷ []
cons_piece x (piece ∷ pieces) = (x ∷ piece) ∷ pieces

-- `s.split(c)`
unfoldable pub split_on : ℕ → Text → List Text
split_on c [] = [] ∷ []
split_on c (x ∷ s) = let rest = split_on c s in if c == x then [] ∷ rest else cons_piece x rest

-- `sep.join(pieces)`
unfoldable pub join : Text → List Text → Text
join sep [] = []
join sep (p ∷ []) = p
join sep (p ∷ q ∷ pieces) = p ++ (sep ++ join sep (q ∷ pieces))

-- The ASCII characters that `str.strip` takes off.
abbrev pub is_space : ℕ → Bool
is_space c = (leb 9 c && leb c 13) || (leb 28 c && leb c 32)

-- `s.lstrip()`, `s.rstrip()`
unfoldable pub lstrip : Text → Text
lstrip [] = []
lstrip (c ∷ s) = let rest = lstrip s in if is_space c then rest else c ∷ s

abbrev pub is_empty_text : Text → Bool
is_empty_text [] = true
is_empty_text (c ∷ s) = false

unfoldable pub rstrip : Text → Text
rstrip [] = []
rstrip (c ∷ s) = let rest = rstrip s in if is_empty_text rest && is_space c then [] else c ∷ rest

abbrev pub is_digit : ℕ → Bool
is_digit c = leb b'0' c && leb c b'9'

unfoldable pub all_digits : Text → Bool
all_digits [] = true
all_digits (c ∷ s) = is_digit c && all_digits s

-- `s.isdigit()`: false on the empty text.
unfoldable pub isdigit : Text → Bool
unfolding all_digits
isdigit [] = false
isdigit (c ∷ s) = all_digits (c ∷ s)

-- `int(s)` of a text of digits.
unfoldable pub digits_value : ℕ → Text → ℕ
digits_value acc [] = acc
digits_value acc (c ∷ s) = digits_value (acc * 10 + (c - b'0')) s

-- `s.find(c, start)`, and `s.rfind(c, 0, end)` as the index behind the match, 0 if there is none.
unfoldable pub find_char : ℕ → Text → Option ℕ
find_char c [] = none
find_char c (x ∷ s) =
    let rest = find_char c s in
    if c == x then some 0 else elim rest [ none ↦ none | some i ↦ some (i + 1) ]

unfoldable pub find_from : ℕ → ℕ → Text → Option ℕ
unfolding find_char
find_from c start s = elim (find_char c (drop start s)) [ none ↦ none | some i ↦ some (start + i) ]

unfoldable pub after_last : ℕ → Text → ℕ
after_last c [] = 0
after_last c (x ∷ s) =
    let rest = after_last c s in if has_char c s then rest + 1 else if c == x then 1 else 0

-- `s[a:b]`, with no second bound for `none`.
abbrev pub slice : ℕ → Option ℕ → Text → Text
slice a none s = drop a s
slice a (some b) s = drop a (take b s)

-- `pair in s` and the number of matches that do not overlap, for a text of the character twice.
unfoldable pub count_double : ℕ → Text → ℕ
count_double c [] = 0
count_double c (x ∷ []) = 0
count_double c (x ∷ y ∷ s) =
    let skip = count_double c s in
    let on = count_double c (y ∷ s) in if x == c && y == c then skip + 1 else on

-- `needle in s`
unfoldable pub contains : Text → Text → Bool
unfolding starts_with
contains needle [] = starts_with needle []
contains needle (c ∷ s) = starts_with needle (c ∷ s) || contains needle s

-- `s.lower()`, `s.upper()`
unfoldable pub lower : Text → Text
lower [] = []
lower (c ∷ s) = (if leb b'A' c && leb c b'Z' then c + 32 else c) ∷ lower s

unfoldable pub upper : Text → Text
upper [] = []
upper (c ∷ s) = (if leb b'a' c && leb c b'z' then c - 32 else c) ∷ upper s

-- `s[1:-1]`, `s[:-1]`
unfoldable pub without_last : Text → Text
without_last [] = []
without_last (c ∷ []) = []
without_last (c ∷ d ∷ s) = c ∷ without_last (d ∷ s)

-- A match of a pattern that ends in `$`, which also stands before one line feed at the end.
unfoldable pub up_to_newline : (Text → Bool) → Text → Bool
unfolding ends_with without_last
up_to_newline p s = p s || (ends_with (codes "\n") s && p (without_last s))
