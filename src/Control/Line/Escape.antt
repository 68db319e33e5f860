-- ===== src/Control/Line/Escape.antt =====
-- How tor escapes text (its `esc_for_log`), and that `codecs.escape_decode` undoes it, for the quoted
-- entries of response/__init__.py.
use stem.Base.{
  ℕ, ◌+◌, ◌/◌, ◌%◌, ◌<◌, [], ◌∷◌, ◌++◌, Text, Bytes, Bool, true, false, ◌&&◌, ◌||◌, leb, ltb, ◌==◌,
  if◌then◌else◌, All, ◌≡◌, ◌⊎◌, inl, inr, refl, arith, append_assoc, Bool-cases,
}
use stem.Base.{Result, ok, err, ◌>>=◌, Result-cases}
use stem.Base.Utf8.{IsAscii, utf8_encode-IsAscii}
use stem.Base.Table.{all_below, all_below-lt}
use stem.Control.Line.Unescape.{
  Mode, text, escape, hex, octal, low_digit, is_octal, step, finish, plain, decode_from,
  escape_decode,
}

-- Quotes and backslashes get a backslash, and so do line feeds, carriage returns and tabs by a letter
-- and other unprintable bytes by three octal digits.
unfoldable pub escape_char : ℕ → Text
escape_char c =
    if c == 34 || (c == 92 || c == 39)
    then 92 ∷ c ∷ []
    else if c == 10
    then 92 ∷ b'n' ∷ []
    else if c == 13
    then 92 ∷ b'r' ∷ []
    else if c == 9
    then 92 ∷ b't' ∷ []
    else if leb 32 c && ltb c 127
    then c ∷ []
    else 92 ∷ (b'0' + c / 64) ∷ (b'0' + c / 8 % 8) ∷ (b'0' + c % 8) ∷ []

abbrev pub escaped_text : Bytes → Text
escaped_text [] = []
escaped_text (c ∷ s) = escape_char c ++ escaped_text s

-- The bytes and the mode after a text.
run : Mode → Text → Result (Bytes × Mode)
run mode [] = ok ([], mode)
run mode (c ∷ s) = do (out, mode) ← step mode c; (rest, mode) ← run mode s; ok (out ++ rest, mode)

bind_ok : (m : Result Bytes) → m ≡ (m >>= λ rest. ok rest)
bind_ok (ok x) = refl
bind_ok (err e) = refl

put_in_front :
    (out more : Bytes) (m : Result Bytes)
    → ((m >>= λ rest. ok (more ++ rest)) >>= λ rest. ok (out ++ rest))
      ≡ (m >>= λ rest. ok ((out ++ more) ++ rest))
put_in_front out more (ok x) = rw append_assoc
put_in_front out more (err e) = refl

regroup :
    (out : Bytes) (m : Result (Bytes × Mode)) (d : Mode → Result Bytes)
    → ((m >>= λ (p : Bytes × Mode). d p.1 >>= λ rest. ok (p.0 ++ rest)) >>= λ rest.
        ok (out ++ rest))
      ≡ ((m >>= λ (p : Bytes × Mode). ok (out ++ p.0, p.1)) >>= λ (p : Bytes × Mode).
          d p.1 >>= λ rest. ok (p.0 ++ rest))
regroup out (ok p) d = put_in_front out p.0 (d p.1)
regroup out (err e) d = refl

decode_from-append :
    (mode : Mode) (s t : Text)
    → decode_from mode (s ++ t)
      ≡ (run mode s >>= λ (p : Bytes × Mode). decode_from p.1 t >>= λ rest. ok (p.0 ++ rest))
unfolding decode_from run
decode_from-append mode [] t = bind_ok (decode_from mode t)
decode_from-append mode (c ∷ s) t = elim (Result-cases (step mode c)) [
  | inl (x, e) ↦ rw (e, decode_from-append x.1 s t) (regroup x.0 (run x.1 s) (λ m. decode_from m t))
  | inr (raised, e) ↦ rw e
]

-- A character is read at once, or is the last octal digit's.
reads_as : ℕ → Result (Bytes × Mode) → Bool
reads_as c (ok (x ∷ [], text)) = x == c
reads_as c (ok ([], octal v n)) = v % 256 == c && n == 3
reads_as c r = false

table : all_below 256 (λ c. reads_as c (run text (escape_char c))) ≡ true
unfolding all_below reads_as run escape_char step
table = refl

reads_as_lem :
    (c : ℕ) (r : Result (Bytes × Mode))
    → reads_as c r ≡ true
    → (r ≡ ok (c ∷ [], text)) ⊎ ((v : ℕ) × (r ≡ ok ([], octal v 3)) × (v % 256 ≡ c))
unfolding reads_as
reads_as_lem c (ok (x ∷ [], text)) h = inl (ground arith)
reads_as_lem c (ok ([], octal v n)) h = inr (v, ground arith, ground arith)
reads_as_lem c (ok ([], text)) h = cc
reads_as_lem c (ok ([], escape)) h = cc
reads_as_lem c (ok ([], hex)) h = cc
reads_as_lem c (ok ([], low_digit v)) h = cc
reads_as_lem c (ok (x ∷ [], escape)) h = cc
reads_as_lem c (ok (x ∷ [], hex)) h = cc
reads_as_lem c (ok (x ∷ [], octal v n)) h = cc
reads_as_lem c (ok (x ∷ [], low_digit v)) h = cc
reads_as_lem c (ok (x ∷ y ∷ s, m)) h = cc
reads_as_lem c (err e) h = cc

pushed :
    (c : ℕ) (out : Bytes) (m : Result Bytes)
    → (m >>= λ rest. ok ((c ∷ out) ++ rest))
      ≡ ((m >>= λ rest. ok (out ++ rest)) >>= λ rest. ok (c ∷ rest))
pushed c out (ok x) = refl
pushed c out (err e) = refl

twice :
    (c : ℕ) (m : Result Bytes)
    → ((m >>= λ rest. ok (c ∷ rest)) >>= λ rest. ok rest) ≡ (m >>= λ rest. ok (c ∷ rest))
twice c (ok x) = refl
twice c (err e) = refl

-- Three octal digits are read by what comes behind them.
octal_over :
    (v : ℕ) (t : Text)
    → decode_from (octal v 3) t ≡ (decode_from text t >>= λ rest. ok ((v % 256) ∷ rest))
unfolding decode_from finish step
octal_over v [] = refl
octal_over v (c ∷ t) = elim (Bool-cases (is_octal c)) [
  | inl digit ↦ rw digit (pushed (v % 256) (plain c).0 (decode_from (plain c).1 t))
  | inr other ↦ rw other (pushed (v % 256) (plain c).0 (decode_from (plain c).1 t))
]

escape_char_lem :
    (c : ℕ) (t : Text)
    → c < 256
    → decode_from text (escape_char c ++ t) ≡ (decode_from text t >>= λ rest. ok (c ∷ rest))
escape_char_lem c t h =
    rw (decode_from-append text (escape_char c) t)
      (elim (reads_as_lem c (run text (escape_char c)) (all_below-lt 256 _ c table h)) [
        | inl e ↦ rw e
        | inr (v, e, eq) ↦ rw (e, octal_over v t, eq) (twice c (decode_from text t))
      ])

decoded : (s : Bytes) → All (λ c. c < 256) s → decode_from text (escaped_text s) ≡ ok s
unfolding decode_from finish
decoded [] h = refl
decoded (c ∷ s) h = rw (escape_char_lem c (escaped_text s) h.0, decoded s h.1)

-- What a byte is escaped to is ASCII.
all_ascii : Text → Bool
all_ascii [] = true
all_ascii (c ∷ s) = ltb c 128 && all_ascii s

ascii_table : all_below 256 (λ c. all_ascii (escape_char c)) ≡ true
unfolding all_below all_ascii escape_char
ascii_table = refl

IsAscii-append : (s t : Text) → all_ascii s ≡ true → IsAscii t → IsAscii (s ++ t)
unfolding all_ascii
IsAscii-append [] t h k = k
IsAscii-append (c ∷ s) t h k = ground (arith, IsAscii-append s t)

escaped_text-IsAscii : (s : Bytes) → All (λ c. c < 256) s → IsAscii (escaped_text s)
escaped_text-IsAscii [] h = tt
escaped_text-IsAscii (c ∷ s) h =
    IsAscii-append (escape_char c) (escaped_text s) (all_below-lt 256 _ c ascii_table h.0)
      (escaped_text-IsAscii s h.1)

-- What tor has escaped is unescaped to the same bytes.
pub escape_decode-escaped_text :
    (s : Bytes) → All (λ c. c < 256) s → escape_decode (escaped_text s) ≡ ok s
unfolding escape_decode
escape_decode-escaped_text s h =
    rw (utf8_encode-IsAscii (escaped_text s) (escaped_text-IsAscii s h)) (decoded s h)
