-- ===== src/Control/Socket/Failure.antt =====
-- How `recv_message` of socket.py fails part of the way through a reply.
use stem.Base.{
  List, [], ◌∷◌, ◌++◌, map, Text, Bytes, Bool, false, text_eq, ends_with, All, ◌≡◌, refl,
  append_assoc, append-nil, inl, inr,
}
use stem.Base.{
  Error, err, socket_closed, protocol_error, value_error, os_error, attribute_error, true, ◌⊎◌, ◌≢◌,
  if◌then◌else◌, Bool-cases,
}
use stem.Base.Utf8.{is_utf8}
use stem.Base.Affix.{ends_with-append}
use stem.Control.Message.{Entry}
use stem.Control.Socket.{
  Read, line, raised, crlf, message_prefix, reply_line, malformed, read_failure, recv_loop,
  data_loop, receive, recv_message,
}
use stem.Control.Socket.Wire.{
  IsCode, Part, code_of, escape, parts_lines, concat, entry_of, reply_line_lem, escape-not-end,
}
use stem.Control.Socket.Laws.{recv_loop_first, read_parts}

-- The escaped lines of a block that is not over.
abbrev pub open_lines : List Bytes → List Bytes
open_lines [] = []
open_lines (l ∷ ls) = (escape l ++ crlf) ∷ open_lines ls

-- A line that is not the end of the input, and has no prefix or no CRLF.
abbrev pub IsUnframed : Bytes → Type 0
IsUnframed whole = (whole ≢ []) × ((message_prefix whole ≡ false) ⊎ (ends_with crlf whole ≡ false))

-- What the reader raises where the socket is closed or fails.
abbrev pub IsSocketFailure : Error → Type 0
IsSocketFailure e = (e ≡ attribute_error) ⊎ ((e ≡ os_error) ⊎ (e ≡ value_error))

after_parts :
    (ps : List Part) (rest : List Read)
    → All (λ p. IsCode (code_of p)) ps
    → recv_message (map line (parts_lines ps) ++ rest)
      ≡ recv_loop false (map entry_of ps) (concat (parts_lines ps)) rest
unfolding recv_message
after_parts ps rest h = rw recv_loop_first (read_parts [] [] ps rest h)

malformed_is :
    (s : Bytes) (b : Bool)
    → is_utf8 s ≡ b
    → malformed s ≡ (if b then protocol_error else value_error)
unfolding malformed
malformed_is s b h = rw h

reply_line-malformed : (whole : Bytes) → IsUnframed whole → reply_line whole ≡ err (malformed whole)
unfolding reply_line
reply_line-malformed [] h = absurd (h.0 refl)
reply_line-malformed (c ∷ s) (_, inl h) = rw h
reply_line-malformed (c ∷ s) (_, inr h) = elim (Bool-cases (message_prefix (c ∷ s))) [
  | inl e ↦ rw (e, h)
  | inr e ↦ rw e
]

broken_line :
    (parsed : List Entry) (raw whole : Bytes) (rest : List Read) (b : Bool)
    → IsUnframed whole
    → is_utf8 whole ≡ b
    → recv_loop false parsed raw (line whole ∷ rest)
      ≡ err (if b then protocol_error else value_error)
unfolding recv_loop
broken_line parsed raw whole rest b bad utf8 =
    rw (reply_line-malformed whole bad, malformed_is whole b utf8)

closed_by :
    (parsed : List Entry) (raw : Bytes) (rest : List Read) (e : Error)
    → IsSocketFailure e
    → recv_loop false parsed raw (raised e ∷ rest) ≡ err socket_closed
unfolding recv_loop read_failure
closed_by parsed raw rest e (inl h) = rw h
closed_by parsed raw rest e (inr (inl h)) = rw h
closed_by parsed raw rest e (inr (inr h)) = rw h

-- A reply that breaks off after some of its parts: at the end of the input, and where the reader
-- raises an AttributeError, an OSError or a ValueError, the socket counts as closed. A line that
-- lacks the prefix or CRLF is a protocol error if it is UTF-8, and otherwise a ValueError.
pub recv_message-broken_off :
    (ps : List Part) (rest : List Read)
    → All (λ p. IsCode (code_of p)) ps
    → (recv_message (map line (parts_lines ps) ++ []) ≡ err socket_closed)
      × (recv_message (map line (parts_lines ps) ++ (line [] ∷ rest)) ≡ err socket_closed)
      × ((e : Error)
          → IsSocketFailure e
          → recv_message (map line (parts_lines ps) ++ (raised e ∷ rest)) ≡ err socket_closed)
      × ((whole : Bytes)
          → IsUnframed whole
          → is_utf8 whole ≡ true
          → recv_message (map line (parts_lines ps) ++ (line whole ∷ rest)) ≡ err protocol_error)
      × ((whole : Bytes)
          → IsUnframed whole
          → is_utf8 whole ≡ false
          → recv_message (map line (parts_lines ps) ++ (line whole ∷ rest)) ≡ err value_error)
unfolding recv_loop reply_line
recv_message-broken_off ps rest h = (
  rw (after_parts ps [] h),
  rw (after_parts ps (line [] ∷ rest) h),
  λ e closed.
      rw (after_parts ps (raised e ∷ rest) h)
        (closed_by (map entry_of ps) (concat (parts_lines ps)) rest e closed),
  λ whole bad utf8.
      rw (after_parts ps (line whole ∷ rest) h)
        (broken_line (map entry_of ps) (concat (parts_lines ps)) whole rest true bad utf8),
  λ whole bad utf8.
      rw (after_parts ps (line whole ∷ rest) h)
        (broken_line (map entry_of ps) (concat (parts_lines ps)) whole rest false bad utf8),
)

open_block :
    (parsed : List Entry) (entry : Entry) (raw content : Bytes) (ls : List Bytes)
    → data_loop parsed entry raw content (map line (open_lines ls))
      ≡ err (malformed (raw ++ concat (open_lines ls)))
unfolding data_loop
open_block parsed entry raw content [] = rw append-nil
open_block parsed entry raw content (l ∷ ls) =
    rw
      (
        ends_with-append (escape l) crlf,
        escape-not-end l,
        open_block parsed entry (raw ++ (escape l ++ crlf)) _ ls,
      )
      (rw (append_assoc, append_assoc))

cut_block :
    (parsed : List Entry) (raw : Bytes) (code : Text) (content : Bytes) (ls : List Bytes)
    → IsCode code
    → recv_loop false parsed raw
        (line (code ++ (b'+' ∷ content ++ crlf)) ∷ map line (open_lines ls))
      ≡ err (malformed ((raw ++ (code ++ (b'+' ∷ content ++ crlf))) ++ concat (open_lines ls)))
unfolding recv_loop receive text_eq
cut_block parsed raw code content ls h =
    rw (reply_line_lem code b'+' content h (inr (inl refl))) (open_block parsed _ _ content ls)

-- Where the input ends within a data block, nothing is returned: the error is a protocol error, or a
-- ValueError if what was read cannot be decoded.
pub recv_message-cut_block :
    (ps : List Part) (code : Text) (content : Bytes) (ls : List Bytes)
    → All (λ p. IsCode (code_of p)) ps
    → IsCode code
    → recv_message (
        map line (parts_lines ps)
        ++ (line (code ++ (b'+' ∷ content ++ crlf)) ∷ map line (open_lines ls)))
      ≡ err (
          malformed (
            (concat (parts_lines ps) ++ (code ++ (b'+' ∷ content ++ crlf)))
            ++ concat (open_lines ls)))
recv_message-cut_block ps code content ls hs h =
    rw (after_parts ps (line (code ++ (b'+' ∷ content ++ crlf)) ∷ map line (open_lines ls)) hs)
      (cut_block (map entry_of ps) (concat (parts_lines ps)) code content ls h)
