-- ===== src/Client/Relay/Pieces.antt =====
-- A cell of a fixed size is received in whatever pieces it comes, of client/__init__.py.
use stem.Base.{
  ℕ, ◌+◌, ◌≤◌, List, [], ◌∷◌, ◌++◌, ◌≡◌, refl, sym, ap, ◌∙◌, arith, Bytes, true, ltb, length, drop,
  replicate, num,
}
use stem.Base.{
  ok, >>=-eq-ok, Bool-cases, inl, inr, append_assoc, append-nil, length-append, take-append_at,
  drop-append_at,
}
use stem.Client.Datatype.Size
use stem.Client.Datatype.Size.{char}
use stem.Client.Datatype.Size.Laws.{pop-pack, length-pack}
use stem.Client.Datatype.LinkProtocol.{link_protocol, fixed_payload_len}
use stem.Client.Cell.Types.{
  Cell, CellType, class_of, circuit_of, unused_of, is_fixed_size, cell_value,
}
use stem.Client.Cell.Frame.Laws.{fill, by_value-cell_value, pack_cell-shape, length-pack_cell}
use stem.Client.Cell.Payload.{pack_payload}
use stem.Client.Cell.Payload.Laws.{Constructed, with_unused}
use stem.Client.Cell.Wire
use stem.Client.Cell.Wire.{pack}
use stem.Client.Cell.Wire.Laws.{pop-pack_cell}
use stem.Client.Relay.{Stream, await_size, cell_size, await_cell, recv_bytes, recv}
use stem.Client.Relay.Laws.{flatten, contents, await_size-contents}

-- Of two ways to part bytes, the longer front begins with the shorter one.
front_of :
    (p q x y : Bytes)
    → x ++ y ≡ p ++ q
    → length p ≤ length x
    → (z : Bytes) × (x ≡ p ++ z) × (q ≡ z ++ y)
front_of [] q x y e h = (x, refl, sym e)
front_of (b ∷ p) q [] y e h = absurd (omega arith)
front_of (b ∷ p) q (c ∷ x) y e h =
    let same : c ≡ b = cc e in
    let further : x ++ y ≡ p ++ q = cc e in
    let (z, front, back) = front_of p q x y further (omega arith) in (z, rw (same, front), back)

-- Enough bytes in all are enough for the loop to end.
await_size-ok :
    (size : ℕ) (buffer : Bytes) (pieces : List Bytes)
    → size ≤ length (buffer ++ flatten pieces)
    → (s : Stream) × (await_size size buffer pieces ≡ ok s) × (size ≤ length s.buffer)
unfolding await_size
await_size-ok size buffer [] h = elim (Bool-cases (ltb (length buffer) size)) [
  | inl short_of ↦ let room : size ≤ length buffer = rw append-nil at h in absurd (ground arith)
  | inr enough ↦ (record { buffer = buffer; pieces = [] }, rw enough, ground arith)
]
await_size-ok size buffer (piece ∷ pieces) h = elim (Bool-cases (ltb (length buffer) size)) [
  | inl short_of ↦
      let room : size ≤ length ((buffer ++ piece) ++ flatten pieces) = rw append_assoc h in
      let (s, awaited, enough) = await_size-ok size (buffer ++ piece) pieces room in
      (s, rw short_of awaited, enough)
  | inr enough ↦ (record { buffer = buffer; pieces = piece ∷ pieces }, rw enough, ground arith)
]

fixed_size :
    (version : ℕ)
    → (link_protocol version).fixed_cell_length
      ≡ (link_protocol version).circ_id_size.size + 1 + fixed_payload_len
unfolding link_protocol
fixed_size version = refl

cell_size-fixed :
    (n : ℕ) (cls : CellType) (s : Stream)
    → is_fixed_size cls ≡ true
    → cell_size n cls s ≡ ok (n + char.size + fixed_payload_len, s)
unfolding cell_size
cell_size-fixed n cls s fixed = rw fixed

await_cell-fixed :
    (version : ℕ) (cls : CellType) (s : Stream) (b1 b2 more : Bytes)
    → is_fixed_size cls ≡ true
    → length b1 ≡ (link_protocol version).circ_id_size.size
    → Size.pack char (num (cell_value cls)) ≡ ok b2
    → contents s ≡ (b1 ++ b2) ++ more
    → fixed_payload_len ≤ length more
    → (t : Stream) × (await_cell version s
        ≡ ok ((link_protocol version).circ_id_size.size + char.size + fixed_payload_len, t))
      × ((link_protocol version).circ_id_size.size + char.size + fixed_payload_len
          ≤ length t.buffer)
      × (contents t ≡ contents s)
unfolding await_cell
await_cell-fixed version cls s b1 b2 more fixed len1 p2 whole room =
    let n = (link_protocol version).circ_id_size.size in
    let all : length (contents s) ≡ length b1 + length b2 + length more =
      ap (λ (b : Bytes). length b) whole
      ∙ omega (arith, length-append (b1 ++ b2) more, length-append b1 b2) in
    let len2 = length-pack char (cell_value cls) b2 p2 in
    let (s1, w1, n1) = await_size-ok (n + char.size) s.buffer s.pieces (omega arith) in
    let kept1 = await_size-contents (n + char.size) s.buffer s.pieces s1 w1 in
    let (z, front, back) =
      front_of (b1 ++ b2) more s1.buffer (flatten s1.pieces) (kept1 ∙ whole)
        (omega (arith, length-append b1 b2)) in
    let behind : drop n s1.buffer ≡ b2 ++ z =
      ap (λ b. drop n b) (front ∙ append_assoc b1 b2 z) ∙ drop-append_at n b1 (b2 ++ z) len1 in
    let size1 : length (contents s1) ≡ length (contents s) = ap (λ (b : Bytes). length b) kept1 in
    let (s2, w2, n2) =
      await_size-ok (n + char.size + fixed_payload_len) s1.buffer s1.pieces (omega arith) in
    (
      s2,
      rw (
        w1,
        behind,
        pop-pack char (cell_value cls) b2 z p2,
        by_value-cell_value cls,
        cell_size-fixed n cls s1 fixed,
        w2,
      ),
      n2,
      await_size-contents _ s1.buffer s1.pieces s2 w2 ∙ kept1,
    )

recv_of :
    (urandom : ℕ → Bytes) (version size : ℕ) (s t : Stream) (bs z : Bytes) (c : Cell)
    → await_cell version s ≡ ok (size, t)
    → t.buffer ≡ bs ++ z
    → Wire.pop urandom (bs ++ z) version ≡ ok (c, z)
    → recv urandom version s ≡ ok (c, record t { buffer = z })
unfolding recv
recv_of urandom version size s t bs z c awaited front popped = rw (awaited, front, popped)

recv_bytes_of :
    (version size : ℕ) (s t : Stream) (bs z : Bytes)
    → await_cell version s ≡ ok (size, t)
    → t.buffer ≡ bs ++ z
    → length bs ≡ size
    → recv_bytes version s ≡ ok (bs, record t { buffer = z })
unfolding recv_bytes
recv_bytes_of version size s t bs z awaited front len =
    rw (awaited, front, take-append_at size bs z len, drop-append_at size bs z len)

-- A packed cell of a fixed size that stands first in all the bytes of the stream is received, with
-- zeros behind its unused bytes, and as the bytes that it packs to where a raw cell is asked for. The
-- stream goes on with what follows it. In which pieces the socket gives the bytes does not matter.
-- The addresses of a NETINFO cell have the canonical text of their bytes, and the bytes of an IPv6
-- address do not read as the text of one.
pub recv-pack_cell :
    (urandom : ℕ → Bytes) (version : ℕ) (c : Cell) (bs rest : Bytes) (s : Stream)
    → Constructed c
    → is_fixed_size (class_of c) ≡ true
    → pack c version ≡ ok bs
    → contents s ≡ bs ++ rest
    → (n : ℕ) × (t : Stream) × (recv urandom version s
        ≡ ok (with_unused c (unused_of c ++ replicate n 0), t))
      × (recv_bytes version s ≡ ok (bs, t))
      × (contents t ≡ rest)
unfolding pack
recv-pack_cell urandom version c bs rest s made fixed h whole =
    let (payload, packed, framed) = >>=-eq-ok (pack_payload c) _ h in
    let (circ, b1, b2, checked, p1, p2, shape, header) =
      pack_cell-shape (class_of c) version payload (unused_of c) (circuit_of c) bs fixed framed in
    let size =
      length-pack_cell (class_of c) version payload (unused_of c) (circuit_of c) bs fixed framed in
    let body : Bytes = (payload ++ unused_of c) ++ fill (class_of c) (payload ++ unused_of c) in
    let parted : contents s ≡ (b1 ++ b2) ++ (body ++ rest) =
      whole ∙ ap (λ b. b ++ rest) shape ∙ append_assoc (b1 ++ b2) body rest in
    let len = fixed_size version in
    let whole_len : length bs ≡ length (b1 ++ b2) + length body =
      ap (λ (b : Bytes). length b) shape ∙ length-append (b1 ++ b2) body in
    let (t, awaited, there, kept) =
      await_cell-fixed version (class_of c) s b1 b2 (body ++ rest) fixed
        (length-pack (link_protocol version).circ_id_size circ b1 p1) p2 parted
        (omega (arith, length-append body rest)) in
    let (z, front, back) =
      front_of bs rest t.buffer (flatten t.pieces) (kept ∙ whole) (omega arith) in
    let (n, popped) = pop-pack_cell urandom version c bs z made h in
    let taken : length bs
        ≡ (link_protocol version).circ_id_size.size + char.size + fixed_payload_len =
      omega arith in
    (
      n,
      record t { buffer = z },
      recv_of urandom version _ s t bs z _ awaited front popped,
      recv_bytes_of version _ s t bs z awaited front taken,
      sym back,
    )
