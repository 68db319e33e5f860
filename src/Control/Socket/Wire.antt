-- ===== src/Control/Socket/Wire.antt =====
-- Replies as the control protocol writes them, and that `recv_message` of socket.py reads each line
-- of them.
use stem.Base.{
  ℕ, ◌<◌, List, [], ◌∷◌, ◌++◌, Text, Bytes, true, false, codes, ◌==◌, if◌then◌else◌, text_eq,
  ends_with, starts_with, ◌≡◌, refl, append_assoc, ◌⊎◌, arith,
}
use stem.Base.{ok}
use stem.Base.Affix.{ends_with-append, strip_last}
use stem.Base.Utf8.{decode_replace-IsAscii}
use stem.Control.Message.{Entry}
use stem.Control.Socket.{
  crlf, newline, message_prefix, is_divider, reply_line, strip_crlf, unescape, is_alnum,
}

-- Three ASCII letters or digits.
pub record IsCode (code : Text) : Type 0 where
  pub a : ℕ
  pub b : ℕ
  pub c : ℕ
  pub is_code : code ≡ a ∷ b ∷ c ∷ []
  pub alnum : (is_alnum a ≡ true) × (is_alnum b ≡ true) × (is_alnum c ≡ true)

alnum-lt : (c : ℕ) → is_alnum c ≡ true → c < 128
unfolding is_alnum
alnum-lt c h = ground arith

-- One part of a reply before its last line: a line, or a data block with its lines.
pub data Part : Type 0 where
  plain : Text → Bytes → Part
  data_block : Text → Bytes → List Bytes → Part

abbrev pub code_of : Part → Text
code_of (plain code content) = code
code_of (data_block code content lines) = code

-- A line of data that begins with a period gets a second one.
unfoldable pub escape : Bytes → Bytes
escape [] = []
escape (c ∷ s) = if c == b'.' then b'.' ∷ c ∷ s else c ∷ s

abbrev pub data_lines : List Bytes → List Bytes
data_lines [] = codes ".\r\n" ∷ []
data_lines (l ∷ ls) = (escape l ++ crlf) ∷ data_lines ls

abbrev pub part_lines : Part → List Bytes
part_lines (plain code content) = (code ++ (b'-' ∷ content ++ crlf)) ∷ []
part_lines (data_block code content lines) = (code ++ (b'+' ∷ content ++ crlf)) ∷ data_lines lines

abbrev pub parts_lines : List Part → List Bytes
parts_lines [] = []
parts_lines (p ∷ ps) = part_lines p ++ parts_lines ps

-- A whole reply: its parts and its last line.
abbrev pub reply_lines : List Part → Text → Bytes → List Bytes
reply_lines parts code content = parts_lines parts ++ ((code ++ (b' ' ∷ content ++ crlf)) ∷ [])

abbrev pub concat : List Bytes → Bytes
concat [] = []
concat (l ∷ ls) = l ++ concat ls

-- What the parts stand for: a block is its lines, with a line feed before each.
abbrev pub block_content : Bytes → List Bytes → Bytes
block_content content [] = content
block_content content (l ∷ ls) = block_content (content ++ (newline ∷ l)) ls

abbrev pub entry_of : Part → Entry
entry_of (plain code content) = record {
  status_code = code;
  divider = codes "-";
  content = content;
}
entry_of (data_block code content lines) = record {
  status_code = code;
  divider = codes "+";
  content = block_content content lines;
}

pub strip_crlf-append : (s : Bytes) → strip_crlf (s ++ crlf) ≡ s
unfolding strip_crlf
strip_crlf-append s =
    let e : s ++ crlf ≡ (s ++ (13 ∷ [])) ++ (10 ∷ []) = rw append_assoc in
    rw (e, strip_last (s ++ (13 ∷ [])) 10) (strip_last s 13)

abbrev pub IsDivider : ℕ → Type 0
IsDivider d = (d ≡ b'-') ⊎ ((d ≡ b'+') ⊎ (d ≡ b' '))

divider-lt : (d : ℕ) → IsDivider d → d < 128
divider-lt d h = ground arith

prefix_lem :
    (a b c d : ℕ) (s : Bytes)
    → is_alnum a ≡ true
    → is_alnum b ≡ true
    → is_alnum c ≡ true
    → IsDivider d
    → message_prefix (a ∷ b ∷ c ∷ d ∷ s) ≡ true
unfolding message_prefix is_divider
prefix_lem a b c d s ha hb hc hd = rw (ha, hb, hc) (ground arith)

ends_crlf : (a b c d : ℕ) (s : Bytes) → ends_with crlf (a ∷ b ∷ c ∷ d ∷ (s ++ crlf)) ≡ true
ends_crlf a b c d s = ends_with-append (a ∷ b ∷ c ∷ d ∷ s) crlf

line_parts :
    (a b c d : ℕ) (content : Bytes)
    → is_alnum a ≡ true
    → is_alnum b ≡ true
    → is_alnum c ≡ true
    → IsDivider d
    → reply_line (a ∷ b ∷ c ∷ d ∷ (content ++ crlf))
      ≡ ok (record { status_code = a ∷ b ∷ c ∷ []; divider = d ∷ []; content = content })
unfolding reply_line
line_parts a b c d content ha hb hc hd = rw (
  prefix_lem a b c d (content ++ crlf) ha hb hc hd,
  ends_crlf a b c d content,
  decode_replace-IsAscii (a ∷ b ∷ c ∷ []) (alnum-lt a ha, (alnum-lt b hb, (alnum-lt c hc, tt))),
  decode_replace-IsAscii (d ∷ []) (divider-lt d hd, tt),
  strip_crlf-append content,
)

-- Each line that the protocol writes is taken apart.
pub reply_line_lem :
    (code : Text) (d : ℕ) (content : Bytes)
    → IsCode code
    → IsDivider d
    → reply_line (code ++ (d ∷ content ++ crlf))
      ≡ ok (record { status_code = code; divider = d ∷ []; content = content })
reply_line_lem code d content v h =
    rw v.is_code (line_parts v.a v.b v.c d content v.alnum.0 v.alnum.1 v.alnum.2 h)

-- The escape is undone.
pub unescape-escape : (l : Bytes) → unescape (escape l) ≡ l
unfolding unescape escape starts_with
unescape-escape [] = refl
unescape-escape (c ∷ []) = ground arith
unescape-escape (c ∷ d ∷ s) = ground arith

-- An escaped line does not end the block.
pub escape-not-end : (l : Bytes) → text_eq (escape l ++ crlf) (codes ".\r\n") ≡ false
unfolding escape text_eq
escape-not-end [] = refl
escape-not-end (c ∷ s) = ground arith
