-- ===== src/Control/Send/Laws.antt =====
-- What tor reads of a message that `send_formatting` of socket.py has framed.
use stem.Base.{
  ℕ, List, [], ◌∷◌, ◌++◌, Text, Bytes, codes, ◌==◌, if◌then◌else◌, has_char, true, false, join, All,
  ◌≡◌, refl, ap, arith, append_assoc, append-nil, sym, text_eq, starts_with,
}
use stem.Base.Pieces.{Lacks, Lacks-append}
use stem.Control.Socket.{crlf, read_lines, unescape, strip_crlf}
use stem.Control.Socket.Wire.{concat, strip_crlf-append}
use stem.Control.Socket.Stream.{IsLine, crlf-IsLine, read_lines-concat}
use stem.Control.Send.{unify_newlines, crlf_newlines, send_formatting}

-- A line of a message has neither of the two characters.
abbrev pub IsMessageLine : Text → Type 0
IsMessageLine l = Lacks 10 l × Lacks 13 l

unify-Lacks : (s : Text) → Lacks 13 s → unify_newlines s ≡ s
unfolding unify_newlines has_char
unify-Lacks [] h = refl
unify-Lacks (c ∷ []) h = refl
unify-Lacks (c ∷ d ∷ s) h = ground (arith, unify-Lacks (d ∷ s))

join-Lacks :
    (p : Text) (ls : List Text) → All (Lacks 13) (p ∷ ls) → Lacks 13 (join (codes "\n") (p ∷ ls))
unfolding join has_char
join-Lacks p [] h = h.0
join-Lacks p (q ∷ ls) h = Lacks-append 13 p _ h.0 (join-Lacks q ls h.1)

-- A text in front of a CRLF that it does not have itself.
unify-piece :
    (p s : Text) → Lacks 13 p → unify_newlines (p ++ (13 ∷ 10 ∷ s)) ≡ p ++ (10 ∷ unify_newlines s)
unfolding unify_newlines has_char
unify-piece [] s h = ground arith
unify-piece (c ∷ []) s h = ground arith
unify-piece (c ∷ d ∷ p) s h = ground (arith, unify-piece (d ∷ p) s)

unify-join :
    (p : Text) (ls : List Text)
    → All (Lacks 13) (p ∷ ls)
    → unify_newlines (join crlf (p ∷ ls)) ≡ join (codes "\n") (p ∷ ls)
unfolding join
unify-join p [] h = unify-Lacks p h.0
unify-join p (q ∷ ls) h = rw (unify-piece p _ h.0, unify-join q ls h.1)

crlf-piece : (p s : Text) → Lacks 10 p → crlf_newlines (p ++ s) ≡ p ++ crlf_newlines s
unfolding crlf_newlines has_char
crlf-piece [] s h = refl
crlf-piece (c ∷ p) s h = ground (arith, crlf-piece p s)

-- The lines as they are sent.
abbrev pub sent_lines : List Text → List Bytes
sent_lines [] = codes ".\r\n" ∷ []
sent_lines (l ∷ ls) = (l ++ crlf) ∷ sent_lines ls

has_char-mid : (p s : Text) → has_char 10 (p ++ (10 ∷ s)) ≡ true
unfolding has_char
has_char-mid [] s = refl
has_char-mid (c ∷ p) s = ground (arith, has_char-mid p s)

crlf_alone : (p : Text) → Lacks 10 p → crlf_newlines p ≡ p
unfolding crlf_newlines has_char
crlf_alone [] h = refl
crlf_alone (c ∷ p) h = ground (arith, crlf_alone p)

one_line :
    (p rest : Bytes) → Lacks 10 p → read_lines ((p ++ crlf) ++ rest) ≡ (p ++ crlf) ∷ read_lines rest
one_line p rest h =
    rw append-nil at (read_lines-concat ((p ++ crlf) ∷ []) rest (crlf-IsLine p h, tt))

crlf-join :
    (p : Text) (ls : List Text)
    → All (Lacks 10) (p ∷ ls)
    → crlf_newlines (join (codes "\n") (p ∷ ls)) ++ codes "\r\n.\r\n" ≡ concat (sent_lines (p ∷ ls))
unfolding join crlf_newlines
crlf-join p [] h = rw (crlf_alone p h.0, append_assoc)
crlf-join p (q ∷ ls) h =
    rw (crlf-piece p _ h.0, append_assoc, crlf-join q ls h.1) (sym (append_assoc p crlf _))

sent-IsLine : (ls : List Text) → All (Lacks 10) ls → All IsLine (sent_lines ls)
unfolding has_char
sent-IsLine [] h = (crlf-IsLine (codes ".") refl, tt)
sent-IsLine (l ∷ ls) h = (crlf-IsLine l h.0, sent-IsLine ls h.1)

All-fst : (ls : List Text) → All IsMessageLine ls → All (Lacks 10) ls
All-fst [] h = tt
All-fst (l ∷ ls) h = (h.0.0, All-fst ls h.1)

All-snd : (ls : List Text) → All IsMessageLine ls → All (Lacks 13) ls
All-snd [] h = tt
All-snd (l ∷ ls) h = (h.0.1, All-snd ls h.1)

join-has_char : (p q : Text) (ls : List Text) → has_char 10 (join (codes "\n") (p ∷ q ∷ ls)) ≡ true
unfolding join
join-has_char p q ls = has_char-mid p _

-- The lines that tor reads of a message of one line, and of several: the first with a plus, and a
-- line of a period after the last.
pub read_lines-send_formatting_single :
    (p : Text) (rest : Bytes)
    → IsMessageLine p
    → read_lines (send_formatting p ++ rest) ≡ (p ++ crlf) ∷ read_lines rest
unfolding send_formatting
read_lines-send_formatting_single p rest h = rw (unify-Lacks p h.1, h.0) (one_line p rest h.0)

send_formatting-join :
    (p q : Text) (ls : List Text)
    → All IsMessageLine (p ∷ q ∷ ls)
    → send_formatting (join (codes "\n") (p ∷ q ∷ ls)) ≡ b'+' ∷ concat (sent_lines (p ∷ q ∷ ls))
unfolding send_formatting
send_formatting-join p q ls h =
    let newlines = All-fst (p ∷ q ∷ ls) h in
    rw (unify-Lacks _ (join-Lacks p (q ∷ ls) (All-snd (p ∷ q ∷ ls) h)), join-has_char p q ls)
      (ap (λ t. b'+' ∷ t) (crlf-join p (q ∷ ls) newlines))

-- It makes no difference which of the two line breaks separate the lines of the message.
pub send_formatting-unified :
    (p q : Text) (ls : List Text)
    → All IsMessageLine (p ∷ q ∷ ls)
    → send_formatting (join crlf (p ∷ q ∷ ls)) ≡ send_formatting (join (codes "\n") (p ∷ q ∷ ls))
unfolding send_formatting
send_formatting-unified p q ls h = rw (
  unify-join p (q ∷ ls) (All-snd (p ∷ q ∷ ls) h),
  unify-Lacks _ (join-Lacks p (q ∷ ls) (All-snd (p ∷ q ∷ ls) h)),
)

read_lines-sent :
    (p q : Text) (ls : List Text) (rest : Bytes)
    → All IsMessageLine (p ∷ q ∷ ls)
    → read_lines (send_formatting (join (codes "\n") (p ∷ q ∷ ls)) ++ rest)
      ≡ (b'+' ∷ p ++ crlf) ∷ (sent_lines (q ∷ ls) ++ read_lines rest)
unfolding has_char
read_lines-sent p q ls rest h =
    let newlines = All-fst (p ∷ q ∷ ls) h in
    rw (send_formatting-join p q ls h) (
      read_lines-concat ((b'+' ∷ p ++ crlf) ∷ sent_lines (q ∷ ls)) rest
        (crlf-IsLine (b'+' ∷ p) h.0.0, sent-IsLine (q ∷ ls) newlines.1))

-- How the control protocol reads a data block: up to a line of a period, with the first of two
-- periods at the beginning of a line taken off. The lines after the block are given back.
unfoldable pub read_data : List Bytes → List Bytes × List Bytes
unfolding text_eq unescape strip_crlf
read_data [] = ([], [])
read_data (l ∷ ls) =
    let (block, rest) = read_data ls in
    if text_eq l (codes ".\r\n") then ([], ls) else (unescape (strip_crlf l) ∷ block, rest)

-- The command that is read from the lines: its first line, the lines of its block, and what is left.
unfoldable pub read_command : List Bytes → Bytes × List Bytes × List Bytes
read_command [] = ([], [], [])
read_command ([] ∷ ls) = ([], [], ls)
read_command ((c ∷ l) ∷ ls) =
    let (block, rest) = read_data ls in
    if c == b'+' then (strip_crlf l, block, rest) else (strip_crlf (c ∷ l), [], ls)

abbrev pub NoPeriod : Text → Type 0
NoPeriod l = starts_with (codes ".") l ≡ false

period_lem : (l s : Text) → NoPeriod l → text_eq (l ++ crlf) (codes ".\r\n") ≡ false
unfolding starts_with text_eq
period_lem [] s h = refl
period_lem (c ∷ l) s h = ground arith

unescape-NoPeriod : (l : Text) → NoPeriod l → unescape l ≡ l
unfolding starts_with unescape
unescape-NoPeriod [] h = refl
unescape-NoPeriod (c ∷ []) h = ground arith
unescape-NoPeriod (c ∷ d ∷ l) h = ground arith

-- A message of one line that is not empty and does not begin with a plus is read as that command.
pub read_command-send_formatting_single :
    (c : ℕ) (p : Text) (rest : Bytes)
    → IsMessageLine (c ∷ p)
    → (c == b'+') ≡ false
    → read_command (read_lines (send_formatting (c ∷ p) ++ rest)) ≡ (c ∷ p, [], read_lines rest)
unfolding read_command
read_command-send_formatting_single c p rest h plus =
    rw (read_lines-send_formatting_single (c ∷ p) rest h, plus) (rw (strip_crlf-append (c ∷ p)))

read_command_data :
    (p q : Text) (ls : List Text) (rest : Bytes)
    → All IsMessageLine (p ∷ q ∷ ls)
    → read_command (read_lines (send_formatting (join (codes "\n") (p ∷ q ∷ ls)) ++ rest)) ≡ (
      p,
      (read_data (sent_lines (q ∷ ls) ++ read_lines rest)).0,
      (read_data (sent_lines (q ∷ ls) ++ read_lines rest)).1,
    )
unfolding read_command
read_command_data p q ls rest h = rw (read_lines-sent p q ls rest h, strip_crlf-append p)

read_data_whole :
    (ls : List Text) (rest : List Bytes)
    → All NoPeriod ls
    → read_data (sent_lines ls ++ rest) ≡ (ls, rest)
unfolding read_data
read_data_whole [] rest h = refl
read_data_whole (l ∷ ls) rest h =
    rw (
      period_lem l [] h.0,
      strip_crlf-append l,
      unescape-NoPeriod l h.0,
      read_data_whole ls rest h.1,
    )

read_data_cut :
    (before after : List Text) (rest : List Bytes)
    → All NoPeriod before
    → read_data (sent_lines (before ++ (codes "." ∷ after)) ++ rest)
      ≡ (before, sent_lines after ++ rest)
unfolding read_data
read_data_cut [] after rest h = refl
read_data_cut (l ∷ before) after rest h = rw (
  period_lem l [] h.0,
  strip_crlf-append l,
  unescape-NoPeriod l h.0,
  read_data_cut before after rest h.1,
)

-- A message of several lines is read as its first line and a block of the others, and what is sent
-- after it is left, if no line of the block begins with a period.
pub read_command-send_formatting :
    (p q : Text) (ls : List Text) (rest : Bytes)
    → All IsMessageLine (p ∷ q ∷ ls)
    → All NoPeriod (q ∷ ls)
    → read_command (read_lines (send_formatting (join (codes "\n") (p ∷ q ∷ ls)) ++ rest))
      ≡ (p, q ∷ ls, read_lines rest)
read_command-send_formatting p q ls rest h dots =
    rw (read_command_data p q ls rest h, read_data_whole (q ∷ ls) (read_lines rest) dots)

-- Periods are not escaped: a line of a period within the message ends the block, and the lines that
-- follow it are left to be read as commands, if no line before it begins with a period.
pub read_command-period :
    (p : Text) (before after : List Text) (rest : Bytes)
    → All IsMessageLine (p ∷ before ++ (codes "." ∷ after))
    → All NoPeriod before
    → read_command (
        read_lines
          (send_formatting (join (codes "\n") (p ∷ before ++ (codes "." ∷ after))) ++ rest))
      ≡ (p, before, sent_lines after ++ read_lines rest)
read_command-period p [] after rest h dots =
    rw (read_command_data p (codes ".") after rest h, read_data_cut [] after (read_lines rest) dots)
read_command-period p (q ∷ before) after rest h dots = rw (
  read_command_data p q (before ++ (codes "." ∷ after)) rest h,
  read_data_cut (q ∷ before) after (read_lines rest) dots,
)
