-- ===== src/Version/Parse.antt =====
-- `Version.__init__` of version.py: the pattern of a version, part by part.
pub mod Laws
use stem.Base.{
  ℕ, List, [], ◌∷◌, ◌++◌, Text, Bool, true, false, ◌&&◌, ◌||◌, not, leb, ◌==◌, if◌then◌else◌,
  is_digit, isdigit, is_space, digits_value, starts_with, ends_with, without_last, drop, split_on,
  codes, Option, none, some, length,
}
use stem.Base.{Result, ok, err, value_error, ◌>>=◌, map_result}
use stem.Version.{Version}

-- A version with the text that it was made from and its extra information.
pub record Parsed : Type 0 where
  pub version_str : Text
  pub version : Version
  pub all_extra : List Text
  pub extra : Option Text
  pub git_commit : Option Text

-- The longest beginning of characters that pass the test, and the rest.
unfoldable pub span : (ℕ → Bool) → Text → Text × Text
span p [] = ([], [])
span p (c ∷ s) = let (run, rest) = span p s in if p c then (c ∷ run, rest) else ([], c ∷ s)

-- `[0-9]+`
abbrev pub number_of : Text × Text → Result (ℕ × Text)
number_of ([], rest) = err value_error
number_of (c ∷ run, rest) = ok (digits_value 0 (c ∷ run), rest)

unfoldable pub number : Text → Result (ℕ × Text)
number s = number_of (span is_digit s)

-- `\.`
abbrev pub dot : Text → Result Text
dot [] = err value_error
dot (c ∷ s) = if c == b'.' then ok s else err value_error

-- `(\.[0-9]+)?`: nothing else of the pattern begins with a period.
unfoldable pub patch_level : Text → Result (Option ℕ × Text)
unfolding number
patch_level [] = ok (none, [])
patch_level (c ∷ s) =
    if c == b'.' then (do (n, rest) ← number s; ok (some n, rest)) else ok (none, c ∷ s)

abbrev pub no_space : ℕ → Bool
no_space c = not (is_space c)

-- `(-\S*)?`, without the dash.
unfoldable pub status_tag : Text → Option Text × Text
unfolding span
status_tag [] = (none, [])
status_tag (c ∷ s) =
    let (run, rest) = span no_space s in if c == b'-' then (some run, rest) else (none, c ∷ s)

unfoldable pub all_no_space : Text → Bool
all_no_space [] = true
all_no_space (c ∷ s) = no_space c && all_no_space s

-- `\(\S*\)`, without the parentheses.
unfoldable pub extra_entry : Text → Result Text
unfolding ends_with all_no_space without_last
extra_entry [] = err value_error
extra_entry (c ∷ s) =
    if c == b'(' && (ends_with (codes ")") s && all_no_space s)
    then ok (without_last s)
    else err value_error

abbrev pub extra_pieces : List Text → Result (List Text)
extra_pieces ([] ∷ pieces) = map_result extra_entry pieces
extra_pieces _ = err value_error

-- `( \(\S*\))*`
unfoldable pub extras : Text → Result (List Text)
unfolding extra_entry split_on map_result
extras [] = ok []
extras (c ∷ s) = extra_pieces (split_on b' ' (c ∷ s))

-- A line feed at the end does not count.
unfoldable pub chomp : Text → Text
unfolding ends_with without_last
chomp s = if ends_with (codes "\n") s then without_last s else s

is_commit_char : ℕ → Bool
is_commit_char c = (leb b'0' c && leb c b'9') || (leb b'a' c && leb c b'f')

all_commit : Text → Bool
unfolding is_commit_char
all_commit [] = true
all_commit (c ∷ s) = is_commit_char c && all_commit s

-- The first entry of the form `git-` and sixteen hexadecimal digits.
unfoldable pub commit_of : List Text → Option Text
unfolding all_commit starts_with
commit_of [] = none
commit_of (e ∷ es) =
    if starts_with (codes "git-") e && (length (drop 4 e) == 16 && all_commit (drop 4 e))
    then some (drop 4 e)
    else commit_of es

abbrev pub first_of : List Text → Option Text
first_of [] = none
first_of (e ∷ es) = some e

-- `Version(version_str)`
unfoldable pub init : Text → Result Parsed
init version_str = do
  (major, s) ← number (chomp version_str)
  s ← dot s
  (minor, s) ← number s
  s ← dot s
  (micro, s) ← number s
  (patch, s) ← patch_level s
  let (status, s) = status_tag s
  all_extra ← extras s
  ok (record {
    version_str = version_str;
    version = record {
      major = major;
      minor = minor;
      micro = micro;
      patch = patch;
      status = status;
    };
    all_extra = all_extra;
    extra = first_of all_extra;
    git_commit = commit_of all_extra;
  })
