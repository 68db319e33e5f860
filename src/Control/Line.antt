-- ===== src/Control/Line.antt =====
-- `ControlLine` of response/__init__.py: a line of a reply as a stack of entries. A line is its
-- remainder, which `pop` and `pop_mapping` return without the entry that they give.
pub mod Unescape
pub mod Laws
pub mod Escape
pub mod Quoted
pub mod Mapping
use stem.Base.{
  ℕ, zero, suc, ◌+◌, ◌-◌, List, [], ◌∷◌, ◌++◌, Text, Bytes, Bool, true, false, ◌&&◌, ◌||◌, not,
  codes, ltb, ◌==◌, if◌then◌else◌, take, drop, text_eq, lstrip, is_space, split_once, after_last,
  is_empty_text, map, Option, none, some,
}
use stem.Base.{Result, ok, err, value_error, index_error, ◌>>=◌}
use stem.Base.Utf8.{decode_replace}
use stem.Control.Line.Unescape.{escape_decode}

abbrev pub quote : ℕ
quote = b'"'

abbrev pub backslash : ℕ
backslash = 92

abbrev index_suc : Option ℕ → Option ℕ
index_suc none = none
index_suc (some i) = some (suc i)

-- `line.find('"', start)`, and on to the next one while a backslash stands in front of it, if the
-- text is escaped. `previous` is the character in front.
unfoldable pub find_quote : Bool → ℕ → Text → Option ℕ
find_quote escaped previous [] = none
find_quote escaped previous (c ∷ s) =
    let rest = index_suc (find_quote escaped c s) in
    if c == quote && not (escaped && previous == backslash) then some 0 else rest

abbrev pub offset : ℕ → Option ℕ → Option ℕ
offset i none = none
offset i (some j) = some (i + j)

-- The second quote is looked for behind the first.
abbrev pub both_quotes : Option ℕ → Text → Bool → Option ℕ × Option ℕ
both_quotes none s escaped = (none, none)
both_quotes (some i) s escaped =
    (some i, offset (suc i) (find_quote escaped quote (drop (suc i) s)))

-- The index of the next two quotes: `none` is -1.
unfoldable pub get_quote_indices : Text → Bool → Option ℕ × Option ℕ
unfolding find_quote
get_quote_indices s escaped = both_quotes (find_quote escaped 0 s) s escaped

-- The quoted value at the beginning of a line, and what follows its second quote.
unfoldable pub cut_quoted : Option ℕ × Option ℕ → Text → Result (Text × Text)
cut_quoted (some zero, some end) s = ok (drop 1 (take end s), drop (suc end) s)
cut_quoted (start, end) s = err value_error

abbrev or_nothing : Option Text → Text
or_nothing none = []
or_nothing (some rest) = rest

-- Up to the first space.
unfoldable pub cut_word : Text → Text × Text
unfolding split_once
cut_word s = ((split_once b' ' s).0, or_nothing (split_once b' ' s).1)

unfoldable pub cut_entry : Text → Bool → Bool → Result (Text × Text)
unfolding get_quote_indices cut_quoted cut_word
cut_entry s true escaped = cut_quoted (get_quote_indices s escaped) s
cut_entry s false escaped = ok (cut_word s)

-- `codecs.latin_1_encode(s, 'replace')`
unfoldable pub latin_1_encode : Text → Bytes
latin_1_encode s = map (λ (c : ℕ). if ltb c 256 then c else b'?') s

-- Text is unescaped to bytes, which are decoded unless bytes are asked for.
unfoldable pub unescaped : Text → Bool → Bool → Result Text
unfolding escape_decode decode_replace latin_1_encode
unescaped entry false false = ok entry
unescaped entry false true = ok (latin_1_encode entry)
unescaped entry true false = do b ← escape_decode entry; ok (decode_replace b)
unescaped entry true true = escape_decode entry

-- `_parse_entry(line, quoted, escaped, get_bytes)`
unfoldable pub parse_entry : Text → Bool → Bool → Bool → Result (Text × Text)
unfolding cut_entry unescaped lstrip
parse_entry [] quoted escaped get_bytes = err index_error
parse_entry (c ∷ s) quoted escaped get_bytes = do
  (entry, remainder) ← cut_entry (c ∷ s) quoted escaped
  entry ← unescaped entry escaped get_bytes
  ok (entry, lstrip remainder)

-- The characters of `s` up to a space.
unfoldable pub first_word : Text → Text
first_word [] = []
first_word (c ∷ s) = let rest = first_word s in if is_space c then [] else c ∷ rest

-- The key in front of an equals sign, whose end is given: at least one character.
abbrev pub key_at : ℕ → Text → Option (Text × ℕ)
key_at end s = if ltb end 2 then none else some (take (end - 1) s, end)

-- `KEY_ARG.match(s)`: the key, and where the match ends. The pattern is greedy, so the key ends at
-- the last `=` before the first space.
unfoldable pub key_arg : Text → Option (Text × ℕ)
unfolding first_word after_last
key_arg s = key_at (after_last b'=' (first_word s)) s

-- `line.is_empty()`
unfoldable pub is_empty : Text → Bool
is_empty s = is_empty_text s

-- Whether the first quote has the index, and there is a second one.
abbrev pub quoted_at : Option ℕ × Option ℕ → ℕ → Bool
quoted_at (some start, some end) at_end = start == at_end
quoted_at (start, end) at_end = false

unfoldable pub is_next_quoted : Text → Bool → Bool
unfolding get_quote_indices
is_next_quoted s escaped = quoted_at (get_quote_indices s escaped) 0

-- An empty key is not checked, like none.
abbrev pub key_differs : Option Text → Text → Bool
key_differs none found = false
key_differs (some []) found = false
key_differs (some (c ∷ key)) found = not (text_eq (c ∷ key) found)

-- Whether the key is the one asked for, and a quoted value stands behind it, if one is asked for.
abbrev pub mapping_at : Option (Text × ℕ) → Text → Option Text → Bool → Bool → Bool
mapping_at none s key quoted escaped = false
mapping_at (some (found, end)) s key quoted escaped =
    if key_differs key found
    then false
    else if quoted
    then quoted_at (get_quote_indices s escaped) end
    else true

unfoldable pub is_next_mapping : Text → Option Text → Bool → Bool → Bool
unfolding key_arg get_quote_indices text_eq
is_next_mapping s key quoted escaped = mapping_at (key_arg s) s key quoted escaped

unfoldable pub peek_key : Text → Option Text
unfolding key_arg
peek_key s = elim (key_arg s) [ none ↦ none | some (key, end) ↦ some key ]

-- `line.pop(quoted, escaped)`
unfoldable pub pop : Text → Bool → Bool → Result (Text × Text)
unfolding parse_entry
pop s quoted escaped = parse_entry s quoted escaped false

-- The value behind a key, if there is one.
abbrev pub pop_value : Option (Text × ℕ) → Text → Bool → Bool → Bool → Result ((Text × Text) × Text)
pop_value none s quoted escaped get_bytes = err value_error
pop_value (some (key, end)) s quoted escaped get_bytes = do
  (value, remainder) ← parse_entry (drop end s) quoted escaped get_bytes
  ok ((key, value), remainder)

-- `line.pop_mapping(quoted, escaped, get_bytes)`
unfoldable pub pop_mapping : Text → Bool → Bool → Bool → Result ((Text × Text) × Text)
unfolding key_arg parse_entry
pop_mapping [] quoted escaped get_bytes = err index_error
pop_mapping (c ∷ s) quoted escaped get_bytes =
    pop_value (key_arg (c ∷ s)) (c ∷ s) quoted escaped get_bytes
