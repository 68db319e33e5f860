-- ===== src/Control/Line/Quoted.antt =====
-- Quoted entries of a `ControlLine` of response/__init__.py, plain and escaped the way tor escapes
-- them.
use stem.Base.{
  ℕ, suc, ◌+◌, ◌<◌, [], ◌∷◌, ◌++◌, Text, Bytes, Bool, true, false, ◌&&◌, not, ◌==◌, drop, lstrip,
  has_char, Option, none, some, All, length, ◌≡◌, refl, ◌∙◌, arith, take-append, same_bool,
}
use stem.Base.{ok, err, value_error}
use stem.Base.Pieces.{Lacks}
use stem.Base.Table.{all_below, all_below-lt}
use stem.Base.Utf8.{decode_replace}
use stem.Control.Line.{
  quote, backslash, find_quote, get_quote_indices, cut_quoted, cut_entry, unescaped, parse_entry,
  pop,
}
use stem.Control.Line.Unescape.{escape_decode}
use stem.Control.Line.Escape.{escape_char, escaped_text, escape_decode-escaped_text}

abbrev pub last_char : ℕ → Text → ℕ
last_char p [] = p
last_char p (c ∷ s) = last_char c s

-- No quote ends the text, and the one behind it is not escaped.
abbrev pub IsClosed : Bool → ℕ → Text → Type 0
IsClosed e p s = (find_quote e p s ≡ none) × ((e && last_char p s == backslash) ≡ false)

pub closing_quote :
    (e : Bool) (p : ℕ) (s t : Text)
    → find_quote e p s ≡ none
    → (e && last_char p s == backslash) ≡ false
    → find_quote e p (s ++ (quote ∷ t)) ≡ some (length s)
unfolding find_quote
closing_quote e p [] t h k = ground arith
closing_quote e p (c ∷ s) t h k = ground (arith, closing_quote e c s t)

opening_quote : (e : Bool) (s : Text) → find_quote e 0 (quote ∷ s) ≡ some 0
unfolding find_quote
opening_quote true s = refl
opening_quote false s = refl

indices_lem :
    (e : Bool) (s t : Text)
    → find_quote e quote s ≡ none
    → (e && last_char quote s == backslash) ≡ false
    → get_quote_indices (quote ∷ s ++ (quote ∷ t)) e ≡ (some 0, some (suc (length s)))
unfolding get_quote_indices
indices_lem e s t h k =
    rw (opening_quote e (s ++ (quote ∷ t)), closing_quote e quote s t h k)
      (let n : 1 + length s ≡ suc (length s) = omega arith in rw n)

pub drop_value : (s t : Text) → drop (suc (length s)) (s ++ (quote ∷ t)) ≡ t
drop_value [] t = refl
drop_value (c ∷ s) t = drop_value s t

-- The text between the two quotes is cut out.
pub cut_lem :
    (e : Bool) (s t : Text)
    → find_quote e quote s ≡ none
    → (e && last_char quote s == backslash) ≡ false
    → cut_entry (quote ∷ s ++ (quote ∷ t)) true e ≡ ok (s, t)
unfolding cut_entry cut_quoted
cut_lem e s t h k = rw (indices_lem e s t h k, take-append s (quote ∷ t), drop_value s t)

pub Lacks-find_quote : (e : Bool) (p : ℕ) (s : Text) → Lacks quote s → find_quote e p s ≡ none
unfolding find_quote has_char
Lacks-find_quote e p [] h = refl
Lacks-find_quote e p (c ∷ s) h = ground (arith, Lacks-find_quote e c s)

-- A quoted entry without a quote inside is popped without its quotes.
pub pop-quoted :
    (s rest : Text)
    → Lacks quote s
    → pop (quote ∷ s ++ (quote ∷ rest)) true false ≡ ok (s, lstrip rest)
unfolding pop parse_entry unescaped
pop-quoted s rest h = rw (cut_lem false s rest (Lacks-find_quote false quote s h) refl)

-- An escaped entry, once it is cut out.
pop_escaped :
    (s v rest : Text)
    → find_quote true quote s ≡ none
    → (last_char quote s == backslash) ≡ false
    → escape_decode s ≡ ok v
    → pop (quote ∷ s ++ (quote ∷ rest)) true true ≡ ok (decode_replace v, lstrip rest)
unfolding pop parse_entry unescaped
pop_escaped s v rest h k e = rw (cut_lem true s rest h k, e)

-- Within what a character is escaped to no quote ends the text, and its last character is a backslash
-- just for the backslash.
is_nothing : Option ℕ → Bool
is_nothing none = true
is_nothing (some i) = false

is_nothing-eq : (o : Option ℕ) → is_nothing o ≡ true → o ≡ none
unfolding is_nothing
is_nothing-eq none h = refl
is_nothing-eq (some i) h = cc

same_bool-eq : (a b : Bool) → same_bool a b ≡ true → a ≡ b
same_bool-eq true b h = cc
same_bool-eq false true h = cc
same_bool-eq false false h = refl

is_hidden : ℕ → Text → Bool
is_hidden c [] = false
is_hidden c (x ∷ s) =
    not (x == quote)
    && (is_nothing (find_quote true x s) && same_bool (last_char x s == backslash) (c == backslash))

hidden_table : all_below 256 (λ c. is_hidden c (escape_char c)) ≡ true
unfolding all_below is_hidden is_nothing escape_char find_quote
hidden_table = refl

pub last_char-append : (p : ℕ) (s t : Text) → last_char p (s ++ t) ≡ last_char (last_char p s) t
last_char-append p [] t = refl
last_char-append p (c ∷ s) t = last_char-append c s t

-- A part of the text without an ending quote.
find_quote-append :
    (p : ℕ) (s t : Text)
    → find_quote true p s ≡ none
    → find_quote true (last_char p s) t ≡ none
    → find_quote true p (s ++ t) ≡ none
unfolding find_quote
find_quote-append p [] t h k = k
find_quote-append p (c ∷ s) t h k = ground (arith, find_quote-append c s t)

char_hidden :
    (p c : ℕ) (s : Text)
    → is_hidden c s ≡ true
    → (find_quote true p s ≡ none) × ((last_char p s == backslash) ≡ (c == backslash))
unfolding is_hidden find_quote
char_hidden p c [] h = absurd (cc h)
char_hidden p c (x ∷ s) h = ground (
  arith,
  is_nothing-eq (find_quote true x s),
  same_bool-eq (last_char x s == backslash) (c == backslash),
)

escape_char-hidden :
    (p c : ℕ)
    → c < 256
    → (find_quote true p (escape_char c) ≡ none)
      × ((last_char p (escape_char c) == backslash) ≡ (c == backslash))
escape_char-hidden p c h = char_hidden p c (escape_char c) (all_below-lt 256 _ c hidden_table h)

last_char-same :
    (p q : ℕ) (v : Text)
    → (p == backslash) ≡ (q == backslash)
    → (last_char p v == backslash) ≡ (last_char q v == backslash)
last_char-same p q [] h = h
last_char-same p q (c ∷ v) h = refl

pub escaped_text-hidden :
    (p : ℕ) (v : Bytes)
    → All (λ c. c < 256) v
    → (find_quote true p (escaped_text v) ≡ none)
      × ((last_char p (escaped_text v) == backslash) ≡ (last_char p v == backslash))
unfolding find_quote
escaped_text-hidden p [] h = (refl, refl)
escaped_text-hidden p (c ∷ v) h =
    let (none_in, last) = escape_char-hidden p c h.0 in
    let (none_on, last_on) = escaped_text-hidden (last_char p (escape_char c)) v h.1 in
    (
      find_quote-append p (escape_char c) (escaped_text v) none_in none_on,
      rw (last_char-append p (escape_char c) (escaped_text v))
          (last_on ∙ last_char-same _ c v last),
    )

-- A quoted entry is popped as the bytes that tor has escaped, decoded, with the spaces behind it, if
-- the last of them is no backslash.
pub pop-escaped_text :
    (v : Bytes) (rest : Text)
    → All (λ c. c < 256) v
    → (last_char quote v == backslash) ≡ false
    → pop (quote ∷ escaped_text v ++ (quote ∷ rest)) true true ≡ ok (decode_replace v, lstrip rest)
pop-escaped_text v rest h last =
    let (none_in, same) = escaped_text-hidden quote v h in
    pop_escaped (escaped_text v) v rest none_in (same ∙ last) (escape_decode-escaped_text v h)

open_quote :
    (p : ℕ) (s t : Text)
    → find_quote true p s ≡ none
    → (last_char p s == backslash) ≡ true
    → Lacks quote t
    → find_quote true p (s ++ (quote ∷ t)) ≡ none
unfolding find_quote has_char
open_quote p [] t h k lacks = rw (k, Lacks-find_quote true quote t lacks)
open_quote p (c ∷ s) t h k lacks = ground (arith, open_quote c s t)

no_end : (s : Text) → find_quote true quote s ≡ none → pop (quote ∷ s) true true ≡ err value_error
unfolding pop parse_entry cut_entry get_quote_indices cut_quoted
no_end s h = rw (opening_quote true s, h)

-- Where it ends with a backslash, which is escaped by another one, the quote behind it is taken for
-- an escaped one, and the entry is refused.
pub pop-backslash :
    (v : Bytes) (rest : Text)
    → All (λ c. c < 256) v
    → (last_char quote v == backslash) ≡ true
    → Lacks quote rest
    → pop (quote ∷ escaped_text v ++ (quote ∷ rest)) true true ≡ err value_error
pop-backslash v rest h last lacks =
    let (none_in, same) = escaped_text-hidden quote v h in
    no_end (escaped_text v ++ (quote ∷ rest))
      (open_quote quote (escaped_text v) rest none_in (same ∙ last) lacks)
