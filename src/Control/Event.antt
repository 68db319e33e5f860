-- ===== src/Control/Event.antt =====
-- `Event` of response/events.py: the standard form of an event, from which its positional
-- arguments and its keywords are read, and the BW event.
pub mod Loop
pub mod Tests
use stem.Base.{
  ℕ, zero, suc, List, [], ◌∷◌, Text, Bool, true, false, not, ◌&&◌, ◌||◌, codes, ◌==◌, leb, is_digit,
  is_space, isdigit, digits_value, length, join, cons_piece, split_once, starts_with, ends_with,
  without_last, text_eq, is_empty_text, if◌then◌else◌, Option, none, some,
}
use stem.Base.{Result, ok, err, protocol_error, ◌>>=◌, ◌>>◌, raise_if}
use stem.Base.Dict

-- What a match of KW_ARG or QUOTED_KW_ARG gives: what is left, the keyword and its value.
abbrev pub Match : Type 0
Match = Text × Text × Text

-- `[A-Za-z0-9_]`
abbrev pub is_word_char : ℕ → Bool
is_word_char c = (leb b'A' c && leb c b'Z') || (leb b'a' c && leb c b'z') || is_digit c || c == b'_'

unfoldable pub all_word_chars : Text → Bool
all_word_chars [] = true
all_word_chars (c ∷ s) = is_word_char c && all_word_chars s

-- `[A-Za-z0-9_]+`
abbrev pub is_word : Text → Bool
is_word [] = false
is_word (c ∷ s) = all_word_chars (c ∷ s)

-- `\S*`
unfoldable pub no_space : Text → Bool
no_space [] = true
no_space (c ∷ s) = not (is_space c) && no_space s

-- `.*`
unfoldable pub one_line : Text → Bool
one_line [] = true
one_line (c ∷ s) = not (c == b'\n') && one_line s

-- `=(\S*)` behind the keyword.
abbrev pub plain_value : Text × Option Text → Option (Text × Text)
plain_value (keyword, none) = none
plain_value (keyword, some value) =
    if is_word keyword && no_space value then some (keyword, value) else none

-- `="(.*)"` behind the keyword.
abbrev pub quoted_value : Text × Option Text → Option (Text × Text)
quoted_value (keyword, none) = none
quoted_value (keyword, some []) = none
quoted_value (keyword, some (c ∷ value)) =
    if is_word keyword && (c == b'"' && (ends_with (codes "\"") value && one_line value))
    then some (keyword, without_last value)
    else none

-- Puts one character before what is left.
abbrev pub put_left : ℕ → Match → Match
put_left c (left, keyword, value) = (c ∷ left, keyword, value)

abbrev pub here : ℕ → Option (Text × Text) → Option Match
here c none = none
here c (some (keyword, value)) = if c == b' ' then some ([], keyword, value) else none

-- `^(.*) ` is greedy: the last space with a match behind it, and no line feed before it.
abbrev pub pick : ℕ → Option (Text × Text) → Option Match → Option Match
pick c first none = here c first
pick c first (some m) = if c == b'\n' then none else some (put_left c m)

-- A pattern at the end of a text, with the value read by `value`.
unfoldable pub match_end : (Text × Option Text → Option (Text × Text)) → Text → Option Match
unfolding split_once
match_end value [] = none
match_end value (c ∷ s) = pick c (value (split_once b'=' s)) (match_end value s)

-- `pattern.match(content)`: `$` stands before one line feed at the end too.
abbrev pub or_else : Option Match → Option Match → Option Match
or_else (some m) other = some m
or_else none other = other

unfoldable pub match_arg : (Text × Option Text → Option (Text × Text)) → Text → Option Match
unfolding match_end ends_with without_last
match_arg value s =
    or_else (match_end value s)
      (if ends_with (codes "\n") s then match_end value (without_last s) else none)

-- QUOTED_KW_ARG, and KW_ARG if that does not match.
unfoldable pub next_arg : Text → Option Match
unfolding match_arg
next_arg content = or_else (match_arg quoted_value content) (match_arg plain_value content)

-- The `while True` loop, on fuel: every round takes characters off.
unfoldable pub keyword_loop : ℕ → Text → List (Text × Text) → Text × List (Text × Text)
keyword_loop zero content keyword_args = (content, keyword_args)
keyword_loop (suc n) content keyword_args = elim (next_arg content) [
  | none ↦ (content, keyword_args)
  | some (left, keyword, value) ↦ keyword_loop n left (Dict.set keyword value keyword_args)
]

-- `s.split()`
abbrev pub starts_word : Text → Bool
starts_word [] = false
starts_word (c ∷ s) = not (is_space c)

unfoldable pub words : Text → List Text
words [] = []
words (c ∷ s) =
    let rest = words s in
    if is_space c then rest else if starts_word s then cons_piece c rest else (c ∷ []) ∷ rest

-- `pieces[1:]`
abbrev pub tail : List Text → List Text
tail [] = []
tail (p ∷ pieces) = pieces

-- The arguments of a content: positional ones and keywords.
unfoldable pub parse_args : Text → List Text × List (Text × Text)
unfolding keyword_loop words
parse_args content =
    let (left, keyword_args) = keyword_loop (length content) content [] in
    (tail (words left), keyword_args)

-- `self.type`: a blank event is refused.
abbrev pub first_word : List Text → Result Text
first_word [] = err protocol_error
first_word (w ∷ ws) = ok w

unfoldable pub event_type : Text → Result Text
unfolding words
event_type content = first_word (words content)

-- The rest of a quoted argument: up to the piece that ends with a quote.
abbrev pub put_piece : Text → List Text × List Text → List Text × List Text
put_piece p (values, positional) = (p ∷ values, positional)

unfoldable pub take_quoted : List Text → Result (List Text × List Text)
unfolding ends_with
take_quoted [] = err protocol_error
take_quoted (p ∷ positional) =
    let rest = take_quoted positional >>= λ found. ok (put_piece p found) in
    if ends_with (codes "\"") p then ok (p ∷ [], positional) else rest

unfoldable pub is_in : Text → List Text → Bool
unfolding text_eq
is_in s [] = false
is_in s (t ∷ ts) = text_eq s t || is_in s ts

-- `s[1:]`
abbrev pub without_first : Text → Text
without_first [] = []
without_first (c ∷ s) = s

-- `' '.join(attr_values)[1:-1]`
abbrev pub unquoted : Text → List Text × List Text → Option Text × List Text
unquoted p (values, rest) =
    (some (without_last (without_first (join (codes " ") (p ∷ values)))), rest)

-- The value of an attribute, and the arguments behind it. `_QUOTED` is empty in every class.
abbrev pub take_arg : Bool → List Text → Result (Option Text × List Text)
take_arg quoted [] = ok (none, [])
take_arg quoted (p ∷ positional) =
    if quoted && starts_with (codes "\"") p
    then (take_quoted positional >>= λ found. ok (unquoted p found))
    else ok (some p, positional)

-- The positional arguments as attributes: `_POSITIONAL_ARGS`, and `_OPTIONALLY_QUOTED`.
unfoldable pub assign_args : List Text → List Text → List Text → Result (List (Text × Option Text))
unfolding take_quoted is_in starts_with without_last join
assign_args [] quoted positional = ok []
assign_args (name ∷ names) quoted positional = do
  (value, rest) ← take_arg (is_in name quoted) positional
  attributes ← assign_args names quoted rest
  ok ((name, value) ∷ attributes)

-- `BandwidthEvent._parse`: the attributes `read` and `written`.
abbrev pub bandwidth_of : List Text → Result (ℕ × ℕ)
bandwidth_of (read ∷ written ∷ positional) =
    if not (isdigit read) || not (isdigit written)
    then err protocol_error
    else ok (digits_value 0 read, digits_value 0 written)
bandwidth_of _ = err protocol_error

unfoldable pub parse_bandwidth : Text → Result (ℕ × ℕ)
unfolding parse_args isdigit digits_value
parse_bandwidth content = bandwidth_of (parse_args content).0
