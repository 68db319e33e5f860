-- ===== src/Version.antt =====
-- `Version` of version.py and how versions are compared.
pub mod Laws
pub mod Parse
mod Tests
use stem.Base.{
  ℕ, List, [], ◌∷◌, Bool, true, false, not, ◌||◌, ltb, ◌==◌, if◌then◌else◌, Option, none, some,
  Text, text_eq,
}

-- The attributes that are compared.
pub record Version : Type 0 where
  pub major : ℕ
  pub minor : ℕ
  pub micro : ℕ
  pub patch : Option ℕ
  pub status : Option Text

-- Python's `>` on strings.
unfoldable pub text_gt : Text → Text → Bool
text_gt [] t = false
text_gt (a ∷ s) [] = true
text_gt (a ∷ s) (b ∷ t) = let rest = text_gt s t in if a == b then rest else ltb b a

-- The comparisons that are passed to `_compare`, on numbers and on strings.
pub data Method : Type 0 where
  equal greater at_least : Method

abbrev pub on_numbers : Method → ℕ → ℕ → Bool
on_numbers equal a b = a == b
on_numbers greater a b = ltb b a
on_numbers at_least a b = ltb b a || (a == b)

abbrev pub on_texts : Method → Text → Text → Bool
on_texts equal a b = text_eq a b
on_texts greater a b = text_gt a b
on_texts at_least a b = text_gt a b || text_eq a b

abbrev pub or_zero : Option ℕ → ℕ
or_zero none = 0
or_zero (some n) = n

abbrev pub or_empty : Option Text → Text
or_empty none = []
or_empty (some t) = t

-- The attributes in their order; the first that differs decides.
abbrev pub numbers : Version → List ℕ
numbers v = v.major ∷ v.minor ∷ v.micro ∷ or_zero v.patch ∷ []

unfoldable pub compare_numbers : Method → List ℕ → List ℕ → Bool → Bool
compare_numbers method (mine ∷ ms) (other ∷ os) same =
    let rest = compare_numbers method ms os same in
    if mine == other then rest else on_numbers method mine other
compare_numbers method _ _ same = same

-- `_compare(other, method)`
unfoldable pub compare_with : Version → Version → Method → Bool
compare_with v other method =
    compare_numbers method (numbers v) (numbers other)
      (on_texts method (or_empty v.status) (or_empty other.status))

-- `==`, `>` and `>=`
abbrev pub eq : Version → Version → Bool
eq v other = compare_with v other equal

abbrev pub gt : Version → Version → Bool
gt v other = compare_with v other greater

abbrev pub ge : Version → Version → Bool
ge v other = compare_with v other at_least
