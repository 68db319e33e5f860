-- ===== src/Control/Socket/Stream.antt =====
-- Replies as the bytes of a stream, which `readline` takes apart, for `recv_message_from_bytes_io` of
-- socket.py.
use stem.Base.{
  ℕ, List, [], ◌∷◌, ◌++◌, map, Text, Bytes, true, false, codes, ◌==◌, has_char, All, ◌≡◌, refl,
  append_assoc, arith, All-append,
}
use stem.Base.Pieces.{Lacks, Lacks-append}
use stem.Base.{ok}
use stem.Control.Socket.{line, crlf, newline, read_lines, recv_message_from_bytes_io, is_alnum}
use stem.Control.Socket.Wire.{
  IsCode, Part, plain, data_block, code_of, escape, data_lines, part_lines, parts_lines,
  reply_lines, concat, entry_of,
}
use stem.Control.Socket.Laws.{recv_message-reply_lines, map-append_list}

-- A line has one line feed, at its end.
pub record IsLine (l : Bytes) : Type 0 where
  pub text : Bytes
  pub is_line : l ≡ text ++ (newline ∷ [])
  pub lacks : Lacks newline text

read_lines_line :
    (s t : Bytes)
    → Lacks newline s
    → read_lines (s ++ (newline ∷ t)) ≡ (s ++ (newline ∷ [])) ∷ read_lines t
unfolding read_lines has_char
read_lines_line [] t h = refl
read_lines_line (c ∷ s) t h = ground (arith, read_lines_line s t)

pub read_lines-concat :
    (ls : List Bytes) (rest : Bytes)
    → All IsLine ls
    → read_lines (concat ls ++ rest) ≡ ls ++ read_lines rest
read_lines-concat [] rest h = refl
read_lines-concat (l ∷ ls) rest h =
    let v = h.0 in
    rw
      (
        v.is_line,
        append_assoc,
        append_assoc,
        read_lines_line v.text (concat ls ++ rest) v.lacks,
        read_lines-concat ls rest h.1,
      )
      refl

-- What a part contains has no line feed.
abbrev pub IsPart : Part → Type 0
IsPart (plain code content) = IsCode code × Lacks newline content
IsPart (data_block code content ls) = IsCode code × Lacks newline content × All (Lacks newline) ls

alnum-ne-newline : (c : ℕ) → is_alnum c ≡ true → (newline == c) ≡ false
unfolding is_alnum
alnum-ne-newline c h = ground arith

pub crlf-IsLine : (s : Bytes) → Lacks newline s → IsLine (s ++ crlf)
unfolding has_char
crlf-IsLine s h = record {
  text = s ++ (13 ∷ []);
  is_line = rw append_assoc;
  lacks = Lacks-append newline s (13 ∷ []) h refl;
}

head-IsLine :
    (code : Text) (d : ℕ) (content : Bytes)
    → IsCode code
    → (newline == d) ≡ false
    → Lacks newline content
    → IsLine (code ++ (d ∷ content ++ crlf))
unfolding has_char
head-IsLine code d content v hd h = rw v.is_code (
    crlf-IsLine (v.a ∷ v.b ∷ v.c ∷ d ∷ content) (
      rw
        (
          alnum-ne-newline v.a v.alnum.0,
          alnum-ne-newline v.b v.alnum.1,
          alnum-ne-newline v.c v.alnum.2,
          hd,
        )
        h))

Lacks-escape : (l : Bytes) → Lacks newline l → Lacks newline (escape l)
unfolding has_char escape
Lacks-escape [] h = h
Lacks-escape (c ∷ s) h = ground arith

data-IsLine : (ls : List Bytes) → All (Lacks newline) ls → All IsLine (data_lines ls)
unfolding has_char
data-IsLine [] h = (crlf-IsLine (codes ".") refl, tt)
data-IsLine (l ∷ ls) h = (crlf-IsLine (escape l) (Lacks-escape l h.0), data-IsLine ls h.1)

part-IsLine : (p : Part) → IsPart p → All IsLine (part_lines p)
part-IsLine (plain code content) h = (head-IsLine code b'-' content h.0 refl h.1, tt)
part-IsLine (data_block code content ls) h =
    (head-IsLine code b'+' content h.0 refl h.1, data-IsLine ls h.2)

parts-IsLine : (ps : List Part) → All IsPart ps → All IsLine (parts_lines ps)
parts-IsLine [] h = tt
parts-IsLine (p ∷ ps) h =
    All-append IsLine (part_lines p) (parts_lines ps) (part-IsLine p h.0) (parts-IsLine ps h.1)

part-IsCode : (p : Part) → IsPart p → IsCode (code_of p)
part-IsCode (plain code content) h = h.0
part-IsCode (data_block code content ls) h = h.0

parts-IsCode : (ps : List Part) → All IsPart ps → All (λ p. IsCode (code_of p)) ps
parts-IsCode [] h = tt
parts-IsCode (p ∷ ps) h = (part-IsCode p h.0, parts-IsCode ps h.1)

-- From the bytes of a reply with anything after them, the message is the reply's entries with their
-- periods unescaped, its raw content is the reply's bytes, and the lines after it are left unread.
-- Each part has a status code of three letters or digits and content without a line feed.
pub recv_message_from_bytes_io-concat :
    (ps : List Part) (code : Text) (content rest : Bytes)
    → All IsPart ps
    → IsCode code
    → Lacks newline content
    → recv_message_from_bytes_io (concat (reply_lines ps code content) ++ rest)
      ≡ ok (
        record {
          parsed_content =
              map entry_of ps
              ++ (record { status_code = code; divider = codes " "; content = content } ∷ []);
          raw_content = concat (reply_lines ps code content);
        },
        map line (read_lines rest),
      )
unfolding recv_message_from_bytes_io
recv_message_from_bytes_io-concat ps code content rest hs h hc =
    rw
      (
        read_lines-concat (reply_lines ps code content) rest (
            All-append IsLine (parts_lines ps) ((code ++ (b' ' ∷ content ++ crlf)) ∷ [])
              (parts-IsLine ps hs) (head-IsLine code b' ' content h refl hc, tt)),
        map-append_list line (reply_lines ps code content) (read_lines rest),
      )
      (recv_message-reply_lines ps code content _ (parts-IsCode ps hs) h)
