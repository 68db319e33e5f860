-- ===== src/Control/Socket/Sound.antt =====
-- What `recv_message` of socket.py returns is what it has read, and is a whole reply.
use stem.Base.{
  List, [], ◌∷◌, ◌++◌, map, Bytes, true, false, codes, text_eq, ends_with, All, ◌≡◌, ◌⊎◌, ap, ◌∙◌,
  append_assoc, append-nil, Bool-cases, inl, inr,
}
use stem.Base.{ok, >>=-eq-ok}
use stem.Control.Message
use stem.Control.Message.{Entry, ControlMessage}
use stem.Control.Socket.{
  Read, line, raised, crlf, newline, reply_line, strip_crlf, unescape, recv_loop, data_loop,
  receive, Received, finish, recv_message,
}
use stem.Control.Socket.Wire.{concat}
use stem.Control.Socket.Laws.{recv_loop_first}

-- An entry that another one follows.
abbrev pub IsMid : Entry → Type 0
IsMid e = (text_eq e.divider (codes "-") ≡ true) ⊎ (text_eq e.divider (codes "+") ≡ true)

-- What a call that reads `reads` has read, and how it ends.
pub record IsReply (parsed : List Entry) (raw : Bytes) (reads : List Read) (m : ControlMessage)
    (rest : List Read) : Type 0 where
  pub lines : List Bytes
  pub mids : List Entry
  pub last : Entry
  pub consumed : reads ≡ map line lines ++ rest
  pub kept : m.raw_content ≡ raw ++ concat lines
  pub entries : m.parsed_content ≡ parsed ++ (mids ++ (last ∷ []))
  pub are_mid : All IsMid mids
  pub is_last : text_eq last.divider (codes " ") ≡ true

-- A line more in front.
more_line :
    (whole : Bytes) (e : Entry) {parsed : List Entry} {raw : Bytes} {reads : List Read}
    {m : ControlMessage} {rest : List Read}
    → IsMid e
    → IsReply (parsed ++ (e ∷ [])) (raw ++ whole) reads m rest
    → IsReply parsed raw (line whole ∷ reads) m rest
more_line whole e {parsed} {raw} mid r = record {
  lines = whole ∷ r.lines;
  mids = e ∷ r.mids;
  last = r.last;
  consumed = ap (λ t. line whole ∷ t) r.consumed;
  kept = r.kept ∙ append_assoc raw whole (concat r.lines);
  entries = r.entries ∙ append_assoc parsed (e ∷ []) (r.mids ++ (r.last ∷ []));
  are_mid = (mid, r.are_mid);
  is_last = r.is_last;
}

-- A line more of the entry that is being read.
consume_line :
    (whole : Bytes) {parsed : List Entry} {raw : Bytes} {reads : List Read} {m : ControlMessage}
    {rest : List Read}
    → IsReply parsed (raw ++ whole) reads m rest
    → IsReply parsed raw (line whole ∷ reads) m rest
consume_line whole {raw} r = record {
  lines = whole ∷ r.lines;
  mids = r.mids;
  last = r.last;
  consumed = ap (λ t. line whole ∷ t) r.consumed;
  kept = r.kept ∙ append_assoc raw whole (concat r.lines);
  entries = r.entries;
  are_mid = r.are_mid;
  is_last = r.is_last;
}

init_eq :
    (parsed : List Entry) (e : Entry) (raw : Bytes) (reads : List Read) {m : ControlMessage}
    {rest : List Read}
    → finish (parsed ++ (e ∷ [])) raw reads ≡ ok (m, rest)
    → (m ≡ record { parsed_content = parsed ++ (e ∷ []); raw_content = raw }) × (reads ≡ rest)
unfolding Message.init
init_eq [] e raw reads h = (cc, cc)
init_eq (p ∷ parsed) e raw reads h = (cc, cc)

last_line :
    (whole : Bytes) (e : Entry) (parsed : List Entry) (raw : Bytes) (reads : List Read)
    {m : ControlMessage} {rest : List Read}
    → text_eq e.divider (codes " ") ≡ true
    → finish (parsed ++ (e ∷ [])) (raw ++ whole) reads ≡ ok (m, rest)
    → IsReply parsed raw (line whole ∷ reads) m rest
last_line whole e parsed raw reads {m} {rest} space h =
    let (made, left) = init_eq parsed e (raw ++ whole) reads h in
    record {
      lines = whole ∷ [];
      mids = [];
      last = e;
      consumed = ap (λ t. line whole ∷ t) left;
      kept = ap (λ (x : ControlMessage). x.raw_content) made ∙ rw append-nil;
      entries = ap (λ (x : ControlMessage). x.parsed_content) made;
      are_mid = tt;
      is_last = space;
    }

-- The three ways on from a line.
receive_eq :
    (parsed : List Entry) (raw whole : Bytes) (reads : List Read) (entry : Entry)
    (more start : List Entry → Bytes → Received) {r : ControlMessage × List Read}
    → receive false parsed raw whole reads entry more start ≡ ok r
    → ((text_eq entry.divider (codes "-") ≡ true)
        × (more (parsed ++ (entry ∷ [])) (raw ++ whole) ≡ ok r))
      ⊎ (((text_eq entry.divider (codes " ") ≡ true)
            × (finish (parsed ++ (entry ∷ [])) (raw ++ whole) reads ≡ ok r))
          ⊎ ((text_eq entry.divider (codes "+") ≡ true) × (start parsed (raw ++ whole) ≡ ok r)))
unfolding receive
receive_eq parsed raw whole reads entry more start h =
    elim (Bool-cases (text_eq entry.divider (codes "-"))) [
      | inl dash ↦ inl (dash, rw dash at h)
      | inr other ↦ elim (Bool-cases (text_eq entry.divider (codes " "))) [
        | inl space ↦ inr (inl (space, rw (other, space) at h))
        | inr not_space ↦ elim (Bool-cases (text_eq entry.divider (codes "+"))) [
          | inl plus ↦ inr (inr (plus, rw (other, not_space, plus) at h))
          | inr none_of ↦ cc (rw (other, not_space, none_of) at h)
        ]
      ]
    ]

mutual
  unfolding recv_loop data_loop

  recv_loop-IsReply :
      (parsed : List Entry) (raw : Bytes) (reads : List Read) {m : ControlMessage}
      {rest : List Read}
      → recv_loop false parsed raw reads ≡ ok (m, rest)
      → IsReply parsed raw reads m rest
  recv_loop-IsReply parsed raw [] h = cc
  recv_loop-IsReply parsed raw (raised e ∷ reads) h = cc
  recv_loop-IsReply parsed raw (line whole ∷ reads) h =
      let (entry, _, hr) = >>=-eq-ok (reply_line whole) _ h in
      elim (receive_eq parsed raw whole reads entry _ _ hr) [
        | inl (dash, hm) ↦
            more_line whole entry (inl dash)
              (recv_loop-IsReply (parsed ++ (entry ∷ [])) (raw ++ whole) reads hm)
        | inr (inl (space, hf)) ↦ last_line whole entry parsed raw reads space hf
        | inr (inr (plus, hd)) ↦
            consume_line whole
              (data_loop-IsReply parsed entry (raw ++ whole) entry.content reads plus hd)
      ]

  data_loop-IsReply :
      (parsed : List Entry) (entry : Entry) (raw block : Bytes) (reads : List Read)
      {m : ControlMessage} {rest : List Read}
      → text_eq entry.divider (codes "+") ≡ true
      → data_loop parsed entry raw block reads ≡ ok (m, rest)
      → IsReply parsed raw reads m rest
  data_loop-IsReply parsed entry raw block [] plus h = cc
  data_loop-IsReply parsed entry raw block (raised e ∷ reads) plus h = cc
  data_loop-IsReply parsed entry raw block (line whole ∷ reads) plus h =
      elim (Bool-cases (ends_with crlf whole)) [
        | inr bad ↦ cc (rw bad at h)
        | inl good ↦ elim (Bool-cases (text_eq whole (codes ".\r\n"))) [
          | inl done ↦
              more_line whole (record entry { content = block }) (inr plus)
                (recv_loop-IsReply (parsed ++ (record entry { content = block } ∷ []))
                  (raw ++ whole) reads (rw (good, done) at h))
          | inr on ↦ consume_line whole (
              data_loop-IsReply parsed entry (raw ++ whole)
                (block ++ (newline ∷ unescape (strip_crlf whole))) reads plus (rw (good, on) at h))
        ]
      ]

-- A message that is returned is what was read: the reads are its lines and the rest, its raw content
-- is these lines, its last entry's divider is a space and those of the others are - or +.
pub recv_message-IsReply :
    (reads : List Read) {m : ControlMessage} {rest : List Read}
    → recv_message reads ≡ ok (m, rest)
    → IsReply [] [] reads m rest
unfolding recv_message
recv_message-IsReply reads h = recv_loop-IsReply [] [] reads (rw (recv_loop_first reads) at h)
