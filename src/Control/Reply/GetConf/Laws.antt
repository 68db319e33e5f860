-- ===== src/Control/Reply/GetConf/Laws.antt =====
-- The options of a GETCONF reply are grouped, of response/getconf.py.
use stem.Base.{
  ℕ, ◌<◌, List, [], ◌∷◌, ◌++◌, map, Text, Bool, true, false, ◌&&◌, ◌||◌, codes, text_eq,
  if◌then◌else◌, Option, none, some, All, length, has_char, after_last, ltb, isdigit, digits_value,
  ◌≡◌, refl, arith, append_assoc, append-nil, Bool-cases, inl, inr,
}
use stem.Base.{ok}
use stem.Base.Pieces.{Lacks}
use stem.Base.Affix.{text_eq-eq, text_eq_self}
use stem.Base.Dict
use stem.Base.Utf8.{IsAscii, decode_replace, decode_replace-IsAscii}
use stem.Control.Message
use stem.Control.Message.{Entry, ControlMessage}
use stem.Control.Line
use stem.Control.Line.{first_word, key_arg, key_at}
use stem.Control.Line.Laws.{
  NoSpace, pop-IsWord, split_once-piece, first_word-append, first_word_equals, NoSpace-Lacks,
  has-mid,
}
use stem.Control.Reply.GetConf.{
  Options, or_none, add_value, non_empty, read_line, read_options, parse_message, is_only_ok,
}

-- `KEY=VALUE`, or the key alone.
abbrev pub line_of : Text × Option Text → Text
line_of (key, none) = key
line_of (key, some value) = key ++ (b'=' ∷ value)

-- A key has no space and no equals sign, and is not empty. Values may be any text.
abbrev pub IsKey : Text → Type 0
IsKey key = NoSpace key × Lacks b'=' key × (0 < length key)

after_last-Lacks : (c : ℕ) (s : Text) → Lacks c s → after_last c s ≡ 0
unfolding after_last has_char
after_last-Lacks c [] h = refl
after_last-Lacks c (x ∷ s) h = ground (arith, after_last-Lacks c s)

after_last-lt : (c : ℕ) (k u : Text) → length k < after_last c (k ++ (c ∷ u))
unfolding after_last has_char
after_last-lt c [] u = ground arith
after_last-lt c (x ∷ k) u = ground (arith, has-mid c k u, after_last-lt c k u)

first_word_all : (k : Text) → NoSpace k → first_word k ≡ k
unfolding first_word
first_word_all [] h = refl
first_word_all (c ∷ k) h = rw (h.0, first_word_all k h.1)

no_key : (key : Text) → IsKey key → Line.is_next_mapping key none false false ≡ false
unfolding Line.is_next_mapping key_arg
no_key key h = rw (first_word_all key h.0, after_last-Lacks b'=' key h.1)

some_key : (end : ℕ) (s : Text) → 1 < end → Line.mapping_at (key_at end s) s none false false ≡ true
some_key end s h = let e : ltb end 2 ≡ false = ground arith in rw e

is_mapping :
    (key value : Text)
    → IsKey key
    → Line.is_next_mapping (key ++ (b'=' ∷ value)) none false false ≡ true
unfolding Line.is_next_mapping key_arg
is_mapping key value h =
    rw (first_word-append key (b'=' ∷ value) h.0, first_word_equals value)
      (some_key (after_last b'=' (key ++ (b'=' ∷ first_word value))) _
        (omega (arith, h.2, after_last-lt b'=' key (first_word value))))

pub read_line_lem : (e : Text × Option Text) → IsKey e.0 → read_line (line_of e) ≡ ok e
unfolding read_line
read_line_lem (key, none) h = rw (no_key key h, (pop-IsWord key [] (NoSpace-Lacks key h.0, h.2)).1)
read_line_lem (key, some value) h = rw (is_mapping key value h, split_once-piece b'=' key value h.1)

-- The values of a key, in their order, without the empty ones, and whether it is there.
abbrev pub value_list : Option Text → List Text
value_list none = []
value_list (some v) = v ∷ []

unfoldable pub values_of : Text → List (Text × Option Text) → List Text
values_of key [] = []
values_of key ((k, v) ∷ es) =
    (if text_eq key k then value_list (non_empty v) else []) ++ values_of key es

unfoldable pub mentions : Text → List (Text × Option Text) → Bool
mentions key [] = false
mentions key ((k, v) ∷ es) = text_eq key k || mentions key es

add_all : Options → List (Text × Option Text) → Options
add_all d [] = d
add_all d ((k, v) ∷ es) = add_all (add_value k (non_empty v) d) es

read_options-line_of :
    (d : Options) (es : List (Text × Option Text))
    → All (λ (e : Text × Option Text). IsKey e.0) es
    → read_options d (map line_of es) ≡ ok (add_all d es)
unfolding read_options add_all
read_options-line_of d [] h = refl
read_options-line_of d (e ∷ es) h =
    rw (read_line_lem e h.0) (read_options-line_of (add_value e.0 (non_empty e.1) d) es h.1)

-- Every key of a line is there afterwards.
lookup-made :
    (key k : Text) (d : Options)
    → Dict.lookup key (if Dict.has_key k d then d else Dict.set k [] d)
      ≡ (if text_eq key k then some (or_none (Dict.lookup key d)) else Dict.lookup key d)
lookup-made key k d = elim (Bool-cases (Dict.has_key k d)) [
  | inl there ↦ rw there (elim (Bool-cases (text_eq key k)) [
    | inl same ↦ let (v, e) = Dict.lookup-has_key k d there in rw (same, text_eq-eq key k same, e)
    | inr other ↦ rw other
  ])
  | inr absent ↦
      rw (absent, Dict.lookup-set key k [] d)
        (elim (Bool-cases (text_eq key k)) [
          | inl same ↦ rw (same, text_eq-eq key k same, Dict.lookup-none k d absent)
          | inr other ↦ rw other
        ])
]

made : (key : Text) (d : Options) → Options
made key d = if Dict.has_key key d then d else Dict.set key [] d

-- What one line does to the values of any key.
lookup-add_value :
    (key k : Text) (v : Option Text) (d : Options)
    → Dict.lookup key (add_value k v d) ≡ (
        if text_eq key k
        then some (or_none (Dict.lookup key d) ++ value_list v)
        else Dict.lookup key d)
unfolding add_value
lookup-add_value key k none d = rw (lookup-made key k d, append-nil)
lookup-add_value key k (some x) d =
    rw
      (
        Dict.lookup-set key k _ (if Dict.has_key k d then d else Dict.set k [] d),
        lookup-made key k d,
        lookup-made k k d,
        text_eq_self k,
      )
      (elim (Bool-cases (text_eq key k)) [
        | inl same ↦ rw (same, text_eq-eq key k same)
        | inr other ↦ rw other
      ])

values_of-none :
    (key : Text) (es : List (Text × Option Text)) → mentions key es ≡ false → values_of key es ≡ []
unfolding mentions values_of
values_of-none key [] h = refl
values_of-none key ((k, v) ∷ es) h = ground (arith, values_of-none key es)

and_false : (b : Bool) → (b && false) ≡ false
and_false true = refl
and_false false = refl

-- What some lines do: their values come behind those that are there.
lookup-add_all :
    (key : Text) (d : Options) (es : List (Text × Option Text))
    → Dict.lookup key (add_all d es) ≡ (
        if mentions key es
        then some (or_none (Dict.lookup key d) ++ values_of key es)
        else Dict.lookup key d)
unfolding add_all mentions values_of
lookup-add_all key d [] = refl
lookup-add_all key d ((k, v) ∷ es) =
    rw (lookup-add_all key (add_value k (non_empty v) d) es, lookup-add_value key k (non_empty v) d)
      (elim (Bool-cases (text_eq key k)) [
        | inl same ↦ rw same (elim (Bool-cases (mentions key es)) [
          | inl more ↦ rw (more, append_assoc)
          | inr last ↦ rw (last, values_of-none key es last, append-nil)
        ])
        | inr other ↦ rw other
      ])

lookup-add_all_nil :
    (key : Text) (es : List (Text × Option Text))
    → Dict.lookup key (add_all [] es) ≡ (if mentions key es then some (values_of key es) else none)
unfolding Dict.lookup
lookup-add_all_nil key es = lookup-add_all key [] es

-- A line of a successful reply, mid-reply or last.
abbrev pub option_entry : Text × Text × Option Text → Entry
option_entry (divider, key, value) = record {
  status_code = codes "250";
  divider = divider;
  content = line_of (key, value);
}

abbrev pub IsOption : Text × Text × Option Text → Type 0
IsOption (divider, key, value) = IsKey key × IsAscii (line_of (key, value))

abbrev pub pair_of : Text × Text × Option Text → Text × Option Text
pair_of (divider, key, value) = (key, value)

lines_lem :
    (es : List (Text × Text × Option Text))
    → All IsOption es
    → map (λ (e : Entry). decode_replace e.content) (map option_entry es)
      ≡ map line_of (map pair_of es)
lines_lem [] h = refl
lines_lem (e ∷ es) h = rw (decode_replace-IsAscii (line_of (pair_of e)) h.0.1, lines_lem es h.1)

message_lines :
    (es : List (Text × Text × Option Text)) (raw : Text)
    → All IsOption es
    → Message.lines (record { parsed_content = map option_entry es; raw_content = raw })
      ≡ map line_of (map pair_of es)
unfolding Message.lines
message_lines es raw h = lines_lem es h

keys_lem :
    (es : List (Text × Text × Option Text))
    → All IsOption es
    → All (λ (e : Text × Option Text). IsKey e.0) (map pair_of es)
keys_lem [] h = tt
keys_lem (e ∷ es) h = (h.0.0, keys_lem es h.1)

successful :
    (e : Text × Text × Option Text) (es : List Entry) → Message.any_2xx (option_entry e ∷ es) ≡ true
unfolding Message.any_2xx isdigit digits_value
successful e es = refl

not_only_ok :
    (e : Text × Text × Option Text) (es : List (Text × Text × Option Text))
    → IsOption e
    → text_eq (line_of (pair_of e)) (codes "OK") ≡ false
    → is_only_ok (map Message.unicode_entry (option_entry e ∷ map option_entry es)) ≡ false
not_only_ok e [] h ne =
    rw (decode_replace-IsAscii (line_of (pair_of e)) h.1, ne, text_eq_self (codes "250"))
      (and_false (text_eq e.0 (codes " ")))
not_only_ok e (f ∷ es) h ne = refl

-- From a GETCONF reply of 250 lines with ASCII keys and values, where the first is not OK: every key
-- that a line has is there, with the values of its lines in their order, the empty ones left out, and
-- no other key is.
pub parse_message-option_entry :
    (e : Text × Text × Option Text) (es : List (Text × Text × Option Text)) (raw key : Text)
    → All IsOption (e ∷ es)
    → text_eq (line_of (pair_of e)) (codes "OK") ≡ false
    → (d : Options) × (parse_message
          (record { parsed_content = map option_entry (e ∷ es); raw_content = raw })
        ≡ ok d)
      × (Dict.lookup key d ≡ (
          if mentions key (map pair_of (e ∷ es))
          then some (values_of key (map pair_of (e ∷ es)))
          else none))
unfolding parse_message Message.content Message.is_ok
parse_message-option_entry e es raw key h ne = (
  add_all [] (map pair_of (e ∷ es)),
  rw (not_only_ok e es h.0 ne, successful e (map option_entry es), message_lines (e ∷ es) raw h)
      (read_options-line_of [] (map pair_of (e ∷ es)) (keys_lem (e ∷ es) h)),
  lookup-add_all_nil key (map pair_of (e ∷ es)),
)
