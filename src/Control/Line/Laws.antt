-- ===== src/Control/Line/Laws.antt =====
-- Entries that are popped off a `ControlLine` of response/__init__.py are those that it was put
-- together from.
use stem.Base.{
  ℕ, suc, ◌+◌, ◌-◌, [], ◌∷◌, ◌++◌, Text, Bool, true, false, ltb, drop, lstrip, is_space, split_once,
  after_last, has_char, none, some, All, length, ◌≡◌, refl, arith, take-append, length-append,
  append_assoc, All-append, ◌<◌, append-nil,
}
use stem.Base.{ok, ◌>>=◌}
use stem.Base.Pieces.{Lacks}
use stem.Base.Affix.{text_eq_self}
use stem.Control.Line.{
  is_next_mapping, cut_word, cut_entry, unescaped, parse_entry, first_word, key_arg, key_at, pop,
  pop_mapping,
}

pub split_once-piece : (c : ℕ) (p s : Text) → Lacks c p → split_once c (p ++ (c ∷ s)) ≡ (p, some s)
unfolding split_once has_char
split_once-piece c [] s h = ground arith
split_once-piece c (x ∷ p) s h = ground (arith, split_once-piece c p s)

pub split_once-last : (c : ℕ) (p : Text) → Lacks c p → split_once c p ≡ (p, none)
unfolding split_once has_char
split_once-last c [] h = refl
split_once-last c (x ∷ p) h = ground (arith, split_once-last c p)

-- Text that may be popped as a word.
abbrev pub IsWord : Text → Type 0
IsWord w = Lacks b' ' w × (0 < length w)

parse_entry-word :
    (w rest : Text)
    → IsWord w
    → parse_entry (w ++ (b' ' ∷ rest)) false false false ≡ ok (w, lstrip rest)
unfolding parse_entry cut_entry cut_word unescaped
parse_entry-word [] rest h = absurd (omega (arith, h.1))
parse_entry-word (c ∷ w) rest h = rw (split_once-piece b' ' (c ∷ w) rest h.0)

parse_entry-last : (w : Text) → IsWord w → parse_entry w false false false ≡ ok (w, [])
unfolding parse_entry cut_entry cut_word unescaped lstrip
parse_entry-last [] h = absurd (omega (arith, h.1))
parse_entry-last (c ∷ w) h = rw (split_once-last b' ' (c ∷ w) h.0)

-- A word is popped whole, with the spaces behind it, and so is the last word of a line.
pub pop-IsWord :
    (w rest : Text)
    → IsWord w
    → (pop (w ++ (b' ' ∷ rest)) false false ≡ ok (w, lstrip rest))
      × (pop w false false ≡ ok (w, []))
unfolding pop
pop-IsWord w rest h = (parse_entry-word w rest h, parse_entry-last w h)

abbrev pub NoSpace : Text → Type 0
NoSpace s = All (λ c. is_space c ≡ false) s

pub first_word-append : (k t : Text) → NoSpace k → first_word (k ++ t) ≡ k ++ first_word t
unfolding first_word
first_word-append [] t h = refl
first_word-append (c ∷ k) t h = rw (h.0, first_word-append k t h.1)

pub has-mid : (c : ℕ) (k u : Text) → has_char c (k ++ (c ∷ u)) ≡ true
unfolding has_char
has-mid c [] u = ground arith
has-mid c (x ∷ k) u = ground (arith, has-mid c k u)

after_last-append : (c : ℕ) (k u : Text) → Lacks c u → after_last c (k ++ (c ∷ u)) ≡ length k + 1
unfolding after_last has_char
after_last-append c [] u h = ground arith
after_last-append c (x ∷ k) u h = ground (arith, has-mid c k u, after_last-append c k u)

pub first_word_equals : (t : Text) → first_word (b'=' ∷ t) ≡ b'=' ∷ first_word t
unfolding first_word
first_word_equals t = refl

key_of : (k t : Text) → 0 < length k → key_at (length k + 1) (k ++ t) ≡ some (k, length k + 1)
key_of k t pos =
    let e : length k + 1 - 1 ≡ length k = omega arith in
    let test : ltb (length k + 1) 2 ≡ false = ground arith in rw (test, e, take-append k t)

-- The key in front of a value whose first word has no equals sign.
pub key_arg_lem :
    (k t : Text)
    → NoSpace k
    → 0 < length k
    → Lacks b'=' (first_word t)
    → key_arg (k ++ (b'=' ∷ t)) ≡ some (k, length k + 1)
unfolding key_arg
key_arg_lem k t hk pos ht =
    rw
      (
        first_word-append k (b'=' ∷ t) hk,
        first_word_equals t,
        after_last-append b'=' k (first_word t) ht,
      )
      (key_of k (b'=' ∷ t) pos)

drop_key : (k t : Text) → drop (length k + 1) (k ++ (b'=' ∷ t)) ≡ t
drop_key [] t = refl
drop_key (c ∷ k) t =
    let e : suc (length k) + 1 ≡ suc (length k + 1) = omega arith in rw e (drop_key k t)

key_with :
    (k t : Text) (quoted escaped get_bytes : Bool)
    → 0 < length k
    → key_arg (k ++ (b'=' ∷ t)) ≡ some (k, length k + 1)
    → pop_mapping (k ++ (b'=' ∷ t)) quoted escaped get_bytes
      ≡ (parse_entry t quoted escaped get_bytes >>= λ (p : Text × Text). ok ((k, p.0), p.1))
unfolding pop_mapping
key_with [] t quoted escaped get_bytes pos e = absurd (omega (arith, pos))
key_with (c ∷ k) t quoted escaped get_bytes pos e = rw (e, drop_key (c ∷ k) t)

-- What is parsed behind the key.
pub pop_mapping-key :
    (k t : Text) (quoted escaped get_bytes : Bool)
    → NoSpace k
    → 0 < length k
    → Lacks b'=' (first_word t)
    → pop_mapping (k ++ (b'=' ∷ t)) quoted escaped get_bytes
      ≡ (parse_entry t quoted escaped get_bytes >>= λ (p : Text × Text). ok ((k, p.0), p.1))
pop_mapping-key k t quoted escaped get_bytes hk pos ht =
    key_with k t quoted escaped get_bytes pos (key_arg_lem k t hk pos ht)

pub first_word-NoSpace : (w rest : Text) → NoSpace w → first_word (w ++ (b' ' ∷ rest)) ≡ w
unfolding first_word
first_word-NoSpace w rest h = rw (first_word-append w (b' ' ∷ rest) h, append-nil)

pub NoSpace-Lacks : (w : Text) → NoSpace w → Lacks b' ' w
unfolding has_char
NoSpace-Lacks [] h = refl
NoSpace-Lacks (c ∷ w) h = ground (arith, NoSpace-Lacks w h.1)

-- `KEY=VALUE` and what follows it: the key and the value are popped, if neither has a space, both
-- are there, and the value has no equals sign.
pub pop_mapping-append :
    (k w rest : Text)
    → NoSpace k
    → NoSpace w
    → 0 < length k
    → 0 < length w
    → Lacks b'=' w
    → pop_mapping (k ++ (b'=' ∷ w ++ (b' ' ∷ rest))) false false false ≡ ok ((k, w), lstrip rest)
pop_mapping-append k w rest hk hw pk pw lacks = rw (
  pop_mapping-key k (w ++ (b' ' ∷ rest)) false false false hk pk
      (rw (first_word-NoSpace w rest hw) lacks),
  parse_entry-word w rest (NoSpace-Lacks w hw, pw),
)

-- An equals sign in the value is taken for the end of the key: all of the value in front of its last
-- one is counted to the key.
pub pop_mapping-swallows :
    (k v w rest : Text)
    → NoSpace k
    → NoSpace v
    → NoSpace w
    → 0 < length k
    → 0 < length w
    → Lacks b'=' w
    → pop_mapping (k ++ (b'=' ∷ v ++ (b'=' ∷ w ++ (b' ' ∷ rest)))) false false false
      ≡ ok ((k ++ (b'=' ∷ v), w), lstrip rest)
pop_mapping-swallows k v w rest hk hv hw pk pw lacks =
    rw (← append_assoc k (b'=' ∷ v) (b'=' ∷ w ++ (b' ' ∷ rest))) (
      pop_mapping-append (k ++ (b'=' ∷ v)) w rest
        (All-append (λ (c : ℕ). is_space c ≡ false) k (b'=' ∷ v) hk (refl, hv)) hw
        (omega (arith, length-append k (b'=' ∷ v))) pw lacks)

pub first_word_last : (w : Text) → NoSpace w → first_word w ≡ w
unfolding first_word
first_word_last [] h = refl
first_word_last (c ∷ w) h = rw (h.0, first_word_last w h.1)

-- The same at the end of a line.
pub pop_mapping-last :
    (k w : Text)
    → NoSpace k
    → NoSpace w
    → 0 < length k
    → 0 < length w
    → Lacks b'=' w
    → pop_mapping (k ++ (b'=' ∷ w)) false false false ≡ ok ((k, w), [])
pop_mapping-last k w hk hw pk pw lacks = rw (
  pop_mapping-key k w false false false hk pk (rw (first_word_last w hw) lacks),
  parse_entry-last w (NoSpace-Lacks w hw, pw),
)

-- A mapping with its own key comes next.
pub is_next_mapping_lem :
    (c : ℕ) (k t : Text)
    → NoSpace (c ∷ k)
    → Lacks b'=' (first_word t)
    → is_next_mapping (c ∷ k ++ (b'=' ∷ t)) (some (c ∷ k)) false false ≡ true
unfolding is_next_mapping
is_next_mapping_lem c k t hk ht =
    rw (key_arg_lem (c ∷ k) t hk (omega arith) ht, text_eq_self (c ∷ k))
