-- ===== src/Control/Line/Mapping.antt =====
-- Mappings to quoted values of a `ControlLine`, of response/__init__.py.
use stem.Base.{
  ℕ, suc, ◌+◌, ◌<◌, [], ◌∷◌, ◌++◌, Text, Bytes, Bool, true, false, ◌&&◌, ◌==◌, lstrip, drop,
  has_char, some, none, All, length, ◌≡◌, refl, ◌∙◌, arith, append_assoc, length-append,
}
use stem.Base.{ok}
use stem.Base.Pieces.{Lacks, Lacks-append}
use stem.Base.Affix.{text_eq_self}
use stem.Control.Line.{
  quote, backslash, find_quote, get_quote_indices, quoted_at, unescaped, parse_entry, first_word,
  is_next_mapping, pop_mapping,
}
use stem.Control.Line.Escape.{escaped_text, escape_decode-escaped_text}
use stem.Control.Line.Laws.{NoSpace, pop_mapping-key, key_arg_lem}
use stem.Control.Line.Quoted.{
  last_char, closing_quote, cut_lem, Lacks-find_quote, last_char-append, escaped_text-hidden,
}

-- A quoted value that its second quote ends.
abbrev pub IsQuoted : Bool → Text → Type 0
IsQuoted e s = (find_quote e quote s ≡ none) × ((e && last_char quote s == backslash) ≡ false)

abbrev pub quoted_text : Text → Text → Text
quoted_text s rest = quote ∷ s ++ (quote ∷ rest)

and_no_backslash : (e : Bool) → (e && false) ≡ false
and_no_backslash true = refl
and_no_backslash false = refl

lacks_equals : (k : Text) → Lacks quote k → Lacks quote (k ++ (b'=' ∷ []))
unfolding has_char
lacks_equals k h = Lacks-append quote k (b'=' ∷ []) h refl

first_index :
    (e : Bool) (k t : Text)
    → Lacks quote k
    → find_quote e 0 (k ++ (b'=' ∷ quote ∷ t)) ≡ some (length k + 1)
first_index e k t lacks =
    let before = k ++ (b'=' ∷ []) in
    let whole : k ++ (b'=' ∷ quote ∷ t) ≡ before ++ (quote ∷ t) = rw append_assoc in
    let size : length before ≡ length k + 1 = length-append k (b'=' ∷ []) in
    rw (whole, ← size)
      (closing_quote e 0 before t (Lacks-find_quote e 0 before (lacks_equals k lacks))
        (rw (last_char-append 0 k (b'=' ∷ [])) (and_no_backslash e)))

behind_first : (k t : Text) → drop (suc (length k + 1)) (k ++ (b'=' ∷ quote ∷ t)) ≡ t
behind_first [] t = refl
behind_first (c ∷ k) t =
    let e : suc (length k) + 1 ≡ suc (length k + 1) = omega arith in rw e (behind_first k t)

indices_behind :
    (e : Bool) (k s rest : Text)
    → Lacks quote k
    → IsQuoted e s
    → quoted_at (get_quote_indices (k ++ (b'=' ∷ quoted_text s rest)) e) (length k + 1) ≡ true
unfolding get_quote_indices
indices_behind e k s rest lacks h =
    rw
      (
        first_index e k (s ++ (quote ∷ rest)) lacks,
        behind_first k (s ++ (quote ∷ rest)),
        closing_quote e quote s rest h.0 h.1,
      )
      (ground arith)

-- A mapping to a quoted value comes next, with its own key.
pub is_next_mapping-quoted_text :
    (e : Bool) (c : ℕ) (k s rest : Text)
    → NoSpace (c ∷ k)
    → Lacks quote (c ∷ k)
    → Lacks b'=' (first_word (quoted_text s rest))
    → IsQuoted e s
    → is_next_mapping (c ∷ k ++ (b'=' ∷ quoted_text s rest)) (some (c ∷ k)) true e ≡ true
unfolding is_next_mapping
is_next_mapping-quoted_text e c k s rest hk lacks ht h = rw (
  key_arg_lem (c ∷ k) (quoted_text s rest) hk (omega arith) ht,
  text_eq_self (c ∷ k),
  indices_behind e (c ∷ k) s rest lacks h,
)

-- The value is popped without its quotes, as it is, and escaped by tor as bytes.
pub pop_mapping-quoted_text :
    (k s rest : Text)
    → NoSpace k
    → 0 < length k
    → Lacks b'=' (first_word (quoted_text s rest))
    → Lacks quote s
    → pop_mapping (k ++ (b'=' ∷ quoted_text s rest)) true false false ≡ ok ((k, s), lstrip rest)
unfolding parse_entry unescaped
pop_mapping-quoted_text k s rest hk pos ht lacks = rw (
  pop_mapping-key k (quoted_text s rest) true false false hk pos ht,
  cut_lem false s rest (Lacks-find_quote false quote s lacks) refl,
)

pub pop_mapping-escaped_text :
    (k : Text) (v : Bytes) (rest : Text)
    → NoSpace k
    → 0 < length k
    → Lacks b'=' (first_word (quoted_text (escaped_text v) rest))
    → All (λ b. b < 256) v
    → IsQuoted true (escaped_text v)
    → pop_mapping (k ++ (b'=' ∷ quoted_text (escaped_text v) rest)) true true true
      ≡ ok ((k, v), lstrip rest)
unfolding parse_entry unescaped
pop_mapping-escaped_text k v rest hk pos ht hv h = rw (
  pop_mapping-key k (quoted_text (escaped_text v) rest) true true true hk pos ht,
  cut_lem true (escaped_text v) rest h.0 h.1,
  escape_decode-escaped_text v hv,
)

-- What tor escapes is quoted, if its last byte is no backslash.
pub escaped_text-IsQuoted :
    (v : Bytes)
    → All (λ b. b < 256) v
    → (last_char quote v == backslash) ≡ false
    → IsQuoted true (escaped_text v)
escaped_text-IsQuoted v h last =
    let (hidden, same) = escaped_text-hidden quote v h in (hidden, same ∙ last)
