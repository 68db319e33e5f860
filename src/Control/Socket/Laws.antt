-- ===== src/Control/Socket/Laws.antt =====
-- `recv_message` of socket.py reads a reply of the control protocol, and nothing after it.
use stem.Base.{
  List, [], ◌∷◌, ◌++◌, map, Text, Bytes, true, false, codes, text_eq, All, ◌≡◌, refl, ◌∙◌,
  append_assoc, append-nil, Bool-cases, inl, inr,
}
use stem.Base.{ok, Result-cases}
use stem.Base.Affix.{ends_with-append, text_eq_self, text_eq-eq}
use stem.Control.Message
use stem.Control.Message.{Entry, ControlMessage}
use stem.Control.Socket.{
  Read, line, raised, crlf, newline, reply_line, recv_loop, data_loop, receive, Received, finish,
  recv_message,
}
use stem.Control.Socket.Wire.{
  IsCode, Part, plain, data_block, code_of, escape, data_lines, part_lines, parts_lines,
  reply_lines, concat, block_content, entry_of, strip_crlf-append, reply_line_lem, unescape-escape,
  escape-not-end,
}

pub map-append_list {ℓ κ} :
    {A : Type ℓ} {B : Type κ} (f : A → B) (xs ys : List A) → map f (xs ++ ys) ≡ map f xs ++ map f ys
map-append_list f [] ys = refl
map-append_list f (x ∷ xs) ys = rw (map-append_list f xs ys)

concat-append : (xs ys : List Bytes) → concat (xs ++ ys) ≡ concat xs ++ concat ys
concat-append [] ys = refl
concat-append (x ∷ xs) ys = rw (concat-append xs ys, append_assoc)

-- A message of at least one entry.
init-append :
    (parsed : List Entry) (e : Entry) (raw : Bytes) (reads : List Read)
    → finish (parsed ++ (e ∷ [])) raw reads
      ≡ ok (record { parsed_content = parsed ++ (e ∷ []); raw_content = raw }, reads)
unfolding Message.init
init-append [] e raw reads = refl
init-append (p ∷ parsed) e raw reads = refl

space-not-dash : (d : Text) → text_eq d (codes " ") ≡ true → text_eq d (codes "-") ≡ false
unfolding text_eq
space-not-dash d h = rw (text_eq-eq d (codes " ") h)

receive_first :
    (whole : Bytes) (reads : List Read) (entry : Entry) (more start : List Entry → Bytes → Received)
    → receive true [] [] whole reads entry more start
      ≡ receive false [] [] whole reads entry more start
unfolding receive
receive_first whole reads entry more start = elim (Bool-cases (text_eq entry.divider (codes " "))) [
  | inl space ↦ rw (space, space-not-dash entry.divider space)
  | inr other ↦ rw other
]

-- It makes no difference that the first line is read by itself.
pub recv_loop_first : (reads : List Read) → recv_loop true [] [] reads ≡ recv_loop false [] [] reads
unfolding recv_loop
recv_loop_first [] = refl
recv_loop_first (raised e ∷ reads) = refl
recv_loop_first (line whole ∷ reads) = elim (Result-cases (reply_line whole)) [
  | inl (entry, e) ↦ rw e (receive_first whole reads entry _ _)
  | inr (e, h) ↦ rw h
]

-- A data block is read up to its last line.
read_block :
    (parsed : List Entry) (entry : Entry) (raw content : Bytes) (ls : List Bytes) (rest : List Read)
    → data_loop parsed entry raw content (map line (data_lines ls) ++ rest)
      ≡ recv_loop false
          (parsed ++ (record entry { content = block_content content ls } ∷ []))
          (raw ++ concat (data_lines ls))
          rest
unfolding data_loop
read_block parsed entry raw content [] rest =
    rw (ends_with-append (codes ".") crlf, text_eq_self (codes ".\r\n")) refl
read_block parsed entry raw content (l ∷ ls) rest =
    rw
      (
        ends_with-append (escape l) crlf,
        escape-not-end l,
        strip_crlf-append (escape l),
        unescape-escape l,
        read_block parsed entry (raw ++ (escape l ++ crlf)) (content ++ (newline ∷ l)) ls rest,
      )
      (rw (append_assoc, append_assoc))

-- So is each part,
pub read_part :
    (parsed : List Entry) (raw : Bytes) (p : Part) (rest : List Read)
    → IsCode (code_of p)
    → recv_loop false parsed raw (map line (part_lines p) ++ rest)
      ≡ recv_loop false (parsed ++ (entry_of p ∷ [])) (raw ++ concat (part_lines p)) rest
unfolding recv_loop receive text_eq
read_part parsed raw (plain code content) rest v =
    rw (reply_line_lem code b'-' content v (inl refl)) (rw append-nil)
read_part parsed raw (data_block code content ls) rest v =
    rw
      (
        reply_line_lem code b'+' content v (inr (inl refl)),
        read_block parsed _ (raw ++ (code ++ (b'+' ∷ content ++ crlf))) content ls rest,
      )
      (rw append_assoc)

regroup :
    (parsed : List Entry) (raw : Bytes) (p : Part) (ps : List Part) (rest : List Read)
    → recv_loop false
        ((parsed ++ (entry_of p ∷ [])) ++ map entry_of ps)
        ((raw ++ concat (part_lines p)) ++ concat (parts_lines ps))
        rest
      ≡ recv_loop false
          (parsed ++ (entry_of p ∷ map entry_of ps))
          (raw ++ (concat (part_lines p) ++ concat (parts_lines ps)))
          rest
regroup parsed raw p ps rest = simp append_assoc

read_end :
    (parsed : List Entry) (raw : Bytes) (code : Text) (content : Bytes) (rest : List Read)
    → IsCode code
    → recv_loop false parsed raw (line (code ++ (b' ' ∷ content ++ crlf)) ∷ rest)
      ≡ ok (
        record {
          parsed_content =
              parsed
              ++ (record { status_code = code; divider = codes " "; content = content } ∷ []);
          raw_content = raw ++ (code ++ (b' ' ∷ content ++ crlf));
        },
        rest,
      )
unfolding recv_loop receive text_eq
read_end parsed raw code content rest h =
    rw (reply_line_lem code b' ' content h (inr (inr refl))) (init-append parsed _ _ rest)

-- and all of them.
pub read_parts :
    (parsed : List Entry) (raw : Bytes) (ps : List Part) (rest : List Read)
    → All (λ p. IsCode (code_of p)) ps
    → recv_loop false parsed raw (map line (parts_lines ps) ++ rest)
      ≡ recv_loop false (parsed ++ map entry_of ps) (raw ++ concat (parts_lines ps)) rest
read_parts parsed raw [] rest v = rw (append-nil, append-nil)
read_parts parsed raw (p ∷ ps) rest v =
    rw (map-append_list line (part_lines p) (parts_lines ps), append_assoc)
      (read_part parsed raw p (map line (parts_lines ps) ++ rest) v.0
        ∙ read_parts (parsed ++ (entry_of p ∷ [])) (raw ++ concat (part_lines p)) ps rest v.1
        ∙ rw (concat-append (part_lines p) (parts_lines ps)) (regroup parsed raw p ps rest))

-- A whole reply is received as its entries, with the bytes of its lines, and nothing after its last
-- line is read.
pub recv_message-reply_lines :
    (ps : List Part) (code : Text) (content : Bytes) (rest : List Read)
    → All (λ p. IsCode (code_of p)) ps
    → IsCode code
    → recv_message (map line (reply_lines ps code content) ++ rest)
      ≡ ok (
        record {
          parsed_content =
              map entry_of ps
              ++ (record { status_code = code; divider = codes " "; content = content } ∷ []);
          raw_content = concat (reply_lines ps code content);
        },
        rest,
      )
unfolding recv_message
recv_message-reply_lines ps code content rest hs h =
    rw
      (
        map-append_list line (parts_lines ps) ((code ++ (b' ' ∷ content ++ crlf)) ∷ []),
        append_assoc,
        recv_loop_first,
      )
      (read_parts [] [] ps (line (code ++ (b' ' ∷ content ++ crlf)) ∷ rest) hs
        ∙ read_end (map entry_of ps) (concat (parts_lines ps)) code content rest h
        ∙ rw (concat-append (parts_lines ps) ((code ++ (b' ' ∷ content ++ crlf)) ∷ []), append-nil))
