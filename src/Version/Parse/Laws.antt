-- ===== src/Version/Parse/Laws.antt =====
-- A version that is written out is parsed again, of version.py.
use stem.Base.{
  ℕ, List, [], ◌∷◌, ◌++◌, map, Text, true, is_digit, all_digits, codes, Option, none, some, ◌≡◌,
  refl, arith, join, has_char,
}
use stem.Base.Pieces.{Lacks, Lacks-append}
use stem.Util.Decimal.{decimal}
use stem.Util.Decimal.Laws.{all_digits-decimal}
use stem.Version.{Version}
use stem.Version.Parse.{span, all_no_space}

-- Text that no digit begins.
abbrev pub NoDigit : Text → Type 0
NoDigit t = span is_digit t ≡ ([], t)

-- How a version is written.
abbrev pub patch_text : Option ℕ → Text
patch_text none = []
patch_text (some n) = b'.' ∷ decimal n

abbrev pub status_text : Option Text → Text
status_text none = []
status_text (some s) = b'-' ∷ s

abbrev pub in_parentheses : Text → Text
in_parentheses e = b'(' ∷ (e ++ codes ")")

abbrev pub extras_text : List Text → Text
extras_text es = join (codes " ") ([] ∷ map in_parentheses es)

abbrev pub version_text : Version → List Text → Text
version_text v es =
    decimal v.major
    ++ (b'.'
        ∷ (decimal v.minor
            ++ (b'.'
                ∷ (decimal v.micro
                    ++ (patch_text v.patch ++ (status_text v.status ++ extras_text es))))))

abbrev pub IsStatus : Option Text → Type 0
IsStatus none = Unit {0}
IsStatus (some s) = all_no_space s ≡ true

-- What follows the numbers begins with neither a digit nor a period.
abbrev pub tail_text : Option Text → List Text → Text
tail_text status es = status_text status ++ extras_text es

digits-Lacks : (s : Text) → all_digits s ≡ true → Lacks 10 s
unfolding all_digits has_char
digits-Lacks [] h = refl
digits-Lacks (c ∷ s) h = ground (arith, digits-Lacks s)

decimal-Lacks : (n : ℕ) → Lacks 10 (decimal n)
decimal-Lacks n = digits-Lacks (decimal n) (all_digits-decimal n)

dotted : (n : ℕ) (t : Text) → Lacks 10 t → Lacks 10 (decimal n ++ (b'.' ∷ t))
unfolding has_char
dotted n t h = Lacks-append 10 (decimal n) (b'.' ∷ t) (decimal-Lacks n) h
