-- ===== src/Client/Cell/Frame/Laws.antt =====
-- The frame of a cell that was packed is read again, with the padding behind its payload.
use stem.Base.{
  ℕ, ◌+◌, ◌-◌, ◌≤◌, ◌<◌, [], ◌++◌, ◌≡◌, refl, sym, ap, subst, ◌∙◌, arith, Bytes, true, false,
  if◌then◌else◌, length, replicate, ltb, Option, num,
}
use stem.Base.{
  ok, >>=-eq-ok, append_assoc, length-append, length-drop, length-take, take, drop,
  take-append-drop, length-replicate, take-append_at, drop-append_at, Bool-cases, inl, inr,
  append-nil,
}
use stem.Client.Datatype.Size
use stem.Client.Datatype.Size.{char, short}
use stem.Client.Datatype.Size.Laws.{pop-pack, pop-append, length-pack, length-pop}
use stem.Client.Datatype.LinkProtocol.{link_protocol, fixed_payload_len}
use stem.Client.Cell.Types.{CellType, cell_value, is_fixed_size, by_value}
use stem.Client.Cell.Frame.{
  Frame, checked_circ_id, size_field, pad, pack_cell, payload_length, read_payload, pop_frame,
}

-- Every class is found by its own value.
pub by_value-cell_value : (cls : CellType) → by_value (cell_value cls) ≡ ok cls
unfolding by_value cell_value
by_value-cell_value cls = ground arith

read_payload-append :
    (cls : CellType) (circ n : ℕ) (body rest : Bytes)
    → length body ≡ n
    → read_payload cls circ n (body ++ rest)
      ≡ ok (record { cls = cls; circ_id = circ; payload = body }, rest)
unfolding read_payload
read_payload-append cls circ n body rest len =
    let room : ltb (length (body ++ rest)) n ≡ false =
      ground (arith, len, length-append body rest) in
    rw (room, take-append_at n body rest len, drop-append_at n body rest len)

-- The zeros behind a payload of a fixed size.
abbrev pub fill : CellType → Bytes → Bytes
fill cls body = if is_fixed_size cls then replicate (fixed_payload_len - length body) 0 else []

-- The padding is of zeros.
pub fill-zeros : (cls : CellType) (body : Bytes) → (n : ℕ) × (fill cls body ≡ replicate n 0)
fill-zeros cls body = elim (Bool-cases (is_fixed_size cls)) [
  | inl fixed ↦ (fixed_payload_len - length body, rw fixed)
  | inr variable ↦ (0, rw variable)
]

-- The header, and then the payload.
read_header :
    (cls : CellType) (version circ n : ℕ) (b1 b2 content rest : Bytes)
    → Size.pack (link_protocol version).circ_id_size (num circ) ≡ ok b1
    → Size.pack char (num (cell_value cls)) ≡ ok b2
    → payload_length cls content ≡ ok (n, rest)
    → pop_frame (b1 ++ (b2 ++ content)) version ≡ read_payload cls circ n rest
unfolding pop_frame
read_header cls version circ n b1 b2 content rest p1 p2 p3 = rw (
  pop-pack (link_protocol version).circ_id_size circ b1 (b2 ++ content) p1,
  pop-pack char (cell_value cls) b2 content p2,
  by_value-cell_value cls,
  p3,
)

-- A padded cell: the padding makes the payload as long as it is to be.
pad_fixed :
    (cls : CellType) (cell_length : ℕ) (header body bs : Bytes)
    → is_fixed_size cls ≡ true
    → cell_length ≡ length header + fixed_payload_len
    → pad cls cell_length (header ++ body) ≡ ok bs
    → (bs ≡ header ++ (body ++ fill cls body))
      × (length (body ++ fill cls body) ≡ fixed_payload_len)
unfolding pad
pad_fixed cls cell_length header body bs fixed size h =
    elim (Bool-cases (ltb cell_length (length (header ++ body)))) [
      | inl large ↦ cc (rw (fixed, large) at h)
      | inr fits ↦
          let room : length body ≤ fixed_payload_len =
            ground (arith, length-append header body, size, fits) in
          let same : cell_length - length (header ++ body) ≡ fixed_payload_len - length body =
            omega (arith, length-append header body) in
          let padded : (header ++ body) ++ replicate (fixed_payload_len - length body) 0 ≡ bs =
            cc (rw (fixed, fits, same) at h) in
          rw fixed (
            sym padded ∙ append_assoc header body _,
            omega (
              arith,
              length-append body (replicate (fixed_payload_len - length body) 0),
              length-replicate {A = ℕ} (fixed_payload_len - length body) 0,
              room,
            ),
          )
    ]

pad_variable :
    (cls : CellType) (n : ℕ) (cell bs : Bytes)
    → is_fixed_size cls ≡ false
    → pad cls n cell ≡ ok bs
    → cell ≡ bs
unfolding pad
pad_variable cls n cell bs variable h = cc (rw variable at h)

payload_length-fixed :
    (cls : CellType) (content : Bytes)
    → is_fixed_size cls ≡ true
    → payload_length cls content ≡ ok (fixed_payload_len, content)
unfolding payload_length
payload_length-fixed cls content fixed = rw fixed

payload_length-variable :
    (cls : CellType) (payload unused size content : Bytes)
    → is_fixed_size cls ≡ false
    → size_field cls payload unused ≡ ok size
    → payload_length cls (size ++ content) ≡ ok (length (payload ++ unused), content)
unfolding payload_length size_field
payload_length-variable cls payload unused size content variable h =
    rw (variable, length-append payload unused)
      (pop-pack short (length payload + length unused) size content (rw variable at h))

size_field-fixed :
    (cls : CellType) (payload unused size : Bytes)
    → is_fixed_size cls ≡ true
    → size_field cls payload unused ≡ ok size
    → [] ≡ size
unfolding size_field
size_field-fixed cls payload unused size fixed h = cc (rw fixed at h)

-- The parts of a cell that was packed.
record Packed (cls : CellType) (version : ℕ) (payload unused : Bytes) (circ_id : Option ℕ)
    (bs : Bytes) : Type 0 where
  circ : ℕ
  b1 : Bytes
  b2 : Bytes
  size : Bytes
  checked : checked_circ_id cls circ_id ≡ ok circ
  packed1 : Size.pack (link_protocol version).circ_id_size (num circ) ≡ ok b1
  packed2 : Size.pack char (num (cell_value cls)) ≡ ok b2
  sized : size_field cls payload unused ≡ ok size
  padded :
      pad cls
        (link_protocol version).fixed_cell_length
        (b1 ++ (b2 ++ (size ++ (payload ++ unused))))
      ≡ ok bs

pack_cell_inv :
    (cls : CellType) (version : ℕ) (payload unused : Bytes) (circ_id : Option ℕ) (bs : Bytes)
    → pack_cell cls version payload unused circ_id ≡ ok bs
    → Packed cls version payload unused circ_id bs
unfolding pack_cell
pack_cell_inv cls version payload unused circ_id bs h =
    let (circ, checked, h1) = >>=-eq-ok (checked_circ_id cls circ_id) _ h in
    let (b1, packed1, h2) =
      >>=-eq-ok (Size.pack (link_protocol version).circ_id_size (num circ)) _ h1 in
    let (b2, packed2, h3) = >>=-eq-ok (Size.pack char (num (cell_value cls))) _ h2 in
    let (size, sized, padded) = >>=-eq-ok (size_field cls payload unused) _ h3 in
    record {
      circ = circ;
      b1 = b1;
      b2 = b2;
      size = size;
      checked = checked;
      packed1 = packed1;
      packed2 = packed2;
      sized = sized;
      padded = padded;
    }

cell_length_lem :
    (version : ℕ)
    → (link_protocol version).fixed_cell_length
      ≡ (link_protocol version).circ_id_size.size + 1 + fixed_payload_len
unfolding link_protocol
cell_length_lem version = refl

abbrev pub frame_of : CellType → ℕ → Bytes → Frame
frame_of cls circ body = record { cls = cls; circ_id = circ; payload = body ++ fill cls body }

module _ (cls : CellType) (version : ℕ) (payload unused : Bytes) (circ_id : Option ℕ)
    (bs rest : Bytes) (parts : Packed cls version payload unused circ_id bs) where
  open parts use {circ, b1, b2, size, packed1, packed2, sized, padded}

  -- The header of a cell of a fixed size, and its payload with the padding.
  fixed_shape :
      is_fixed_size cls ≡ true
      → (bs ≡ (b1 ++ b2) ++ ((payload ++ unused) ++ fill cls (payload ++ unused)))
        × (length ((payload ++ unused) ++ fill cls (payload ++ unused)) ≡ fixed_payload_len)
        × (length (b1 ++ b2) ≡ (link_protocol version).circ_id_size.size + 1)
  fixed_shape fixed =
      let body : Bytes = payload ++ unused in
      let none_sized : [] ≡ size = size_field-fixed cls payload unused size fixed sized in
      let joined : pad cls (link_protocol version).fixed_cell_length ((b1 ++ b2) ++ body) ≡ ok bs =
        rw (append_assoc b1 b2 body) (
          subst
            (λ s.
              pad cls (link_protocol version).fixed_cell_length (b1 ++ (b2 ++ (s ++ body))) ≡ ok bs)
            (sym none_sized) padded) in
      let header : length (b1 ++ b2) ≡ (link_protocol version).circ_id_size.size + 1 = omega (
        arith,
        length-append b1 b2,
        length-pack (link_protocol version).circ_id_size circ b1 packed1,
        length-pack char (cell_value cls) b2 packed2,
      ) in
      let size_eq = cell_length_lem version in
      let (whole, len) =
        pad_fixed cls (link_protocol version).fixed_cell_length (b1 ++ b2) body bs fixed
          (omega arith) joined in
      (whole, len, header)

  pop_frame-fixed :
      is_fixed_size cls ≡ true
      → (pop_frame (bs ++ rest) version ≡ ok (frame_of cls circ (payload ++ unused), rest))
        × (length bs ≡ (link_protocol version).fixed_cell_length)
  pop_frame-fixed fixed =
      let (whole, len, header) = fixed_shape fixed in
      let size_eq = cell_length_lem version in
      let filled : Bytes = (payload ++ unused) ++ fill cls (payload ++ unused) in
      let order : bs ++ rest ≡ b1 ++ (b2 ++ (filled ++ rest)) =
        ap (λ c. c ++ rest) whole
        ∙ append_assoc (b1 ++ b2) filled rest
        ∙ append_assoc b1 b2 (filled ++ rest) in
      (
        ap (λ c. pop_frame c version) order
            ∙ read_header cls version circ fixed_payload_len b1 b2 (filled ++ rest) (filled ++ rest)
                packed1 packed2 (payload_length-fixed cls (filled ++ rest) fixed)
            ∙ read_payload-append cls circ fixed_payload_len filled rest len,
        ap (λ (c : Bytes). length c) whole
            ∙ omega (arith, length-append (b1 ++ b2) filled, header, size_eq, len),
      )

  pop_frame-variable :
      is_fixed_size cls ≡ false
      → pop_frame (bs ++ rest) version ≡ ok (frame_of cls circ (payload ++ unused), rest)
  pop_frame-variable variable =
      let body : Bytes = payload ++ unused in
      let whole =
        pad_variable cls (link_protocol version).fixed_cell_length (b1 ++ (b2 ++ (size ++ body))) bs
          variable padded in
      let order : bs ++ rest ≡ b1 ++ (b2 ++ (size ++ (body ++ rest))) =
        ap (λ c. c ++ rest) (sym whole) ∙ rw (append_assoc, append_assoc, append_assoc) in
      let filled : body ++ fill cls body ≡ body = rw (variable, append-nil) in
      ap (λ c. pop_frame c version) order
      ∙ read_header cls version circ (length body) b1 b2 (size ++ (body ++ rest)) (body ++ rest)
          packed1 packed2
          (payload_length-variable cls payload unused size (body ++ rest) variable sized)
      ∙ read_payload-append cls circ (length body) body rest refl
      ∙ ap (λ (b : Bytes). ok (record { cls = cls; circ_id = circ; payload = b }, rest))
          (sym filled)

-- The frame of a packed cell is read again, whatever follows: its class, its circuit id, and the
-- payload with the unused bytes and the padding. A cell of a fixed size has the protocol's length.
pub pop_frame-pack_cell :
    (cls : CellType) (version : ℕ) (payload unused : Bytes) (circ_id : Option ℕ) (bs rest : Bytes)
    → pack_cell cls version payload unused circ_id ≡ ok bs
    → (circ : ℕ) × (checked_circ_id cls circ_id ≡ ok circ)
      × (pop_frame (bs ++ rest) version ≡ ok (frame_of cls circ (payload ++ unused), rest))
pop_frame-pack_cell cls version payload unused circ_id bs rest h =
    let parts = pack_cell_inv cls version payload unused circ_id bs h in
    elim (Bool-cases (is_fixed_size cls)) [
      | inl fixed ↦ (
        parts.circ,
        parts.checked,
        (pop_frame-fixed cls version payload unused circ_id bs rest parts fixed).0,
      )
      | inr variable ↦ (
        parts.circ,
        parts.checked,
        pop_frame-variable cls version payload unused circ_id bs rest parts variable,
      )
    ]

-- A packed cell of a fixed size has the protocol's length.
pub length-pack_cell :
    (cls : CellType) (version : ℕ) (payload unused : Bytes) (circ_id : Option ℕ) (bs : Bytes)
    → is_fixed_size cls ≡ true
    → pack_cell cls version payload unused circ_id ≡ ok bs
    → length bs ≡ (link_protocol version).fixed_cell_length
length-pack_cell cls version payload unused circ_id bs fixed h =
    (pop_frame-fixed cls version payload unused circ_id bs []
      (pack_cell_inv cls version payload unused circ_id bs h) fixed).1

payload_length-shorter :
    (cls : CellType) (content rest : Bytes) (n : ℕ)
    → payload_length cls content ≡ ok (n, rest)
    → length rest ≤ length content
unfolding payload_length
payload_length-shorter cls content rest n h = elim (Bool-cases (is_fixed_size cls)) [
  | inl fixed ↦ let e : content ≡ rest = cc (rw fixed at h) in rw e (omega arith)
  | inr variable ↦ omega (arith, length-pop short content rest n (rw variable at h))
]

read_payload-shorter :
    (cls : CellType) (circ n : ℕ) (content rest : Bytes) (f : Frame)
    → read_payload cls circ n content ≡ ok (f, rest)
    → length rest ≤ length content
unfolding read_payload
read_payload-shorter cls circ n content rest f h = ground (arith, length-drop n content)

-- A frame that is read is taken off the front, and is not empty.
pub pop_frame-shorter :
    (content rest : Bytes) (version : ℕ) (f : Frame)
    → pop_frame content version ≡ ok (f, rest)
    → length rest < length content
unfolding pop_frame
pop_frame-shorter content rest version f h =
    let ((circ, c1), p1, h1) =
      >>=-eq-ok (Size.pop (link_protocol version).circ_id_size content) _ h in
    let ((command, c2), p2, h2) = >>=-eq-ok (Size.pop char c1) _ h1 in
    let (cls, _, h3) = >>=-eq-ok (by_value command) _ h2 in
    let ((n, c3), p3, h4) = >>=-eq-ok (payload_length cls c2) _ h3 in
    omega (
      arith,
      length-pop (link_protocol version).circ_id_size content c1 circ p1,
      length-pop char c1 c2 command p2,
      payload_length-shorter cls c2 c3 n p3,
      read_payload-shorter cls circ n c3 rest f h4,
    )

-- A packed cell of a fixed size is its circuit id, its class and its padded payload.
pub pack_cell-shape :
    (cls : CellType) (version : ℕ) (payload unused : Bytes) (circ_id : Option ℕ) (bs : Bytes)
    → is_fixed_size cls ≡ true
    → pack_cell cls version payload unused circ_id ≡ ok bs
    → (circ : ℕ) × (b1 : Bytes) × (b2 : Bytes) × (checked_circ_id cls circ_id ≡ ok circ)
      × (Size.pack (link_protocol version).circ_id_size (num circ) ≡ ok b1)
      × (Size.pack char (num (cell_value cls)) ≡ ok b2)
      × (bs ≡ (b1 ++ b2) ++ ((payload ++ unused) ++ fill cls (payload ++ unused)))
      × (length (b1 ++ b2) ≡ (link_protocol version).circ_id_size.size + 1)
pack_cell-shape cls version payload unused circ_id bs fixed h =
    let parts = pack_cell_inv cls version payload unused circ_id bs h in
    let (whole, _, header) = fixed_shape cls version payload unused circ_id bs [] parts fixed in
    (parts.circ, parts.b1, parts.b2, parts.checked, parts.packed1, parts.packed2, whole, header)

payload_length-append :
    (cls : CellType) (content rest more : Bytes) (n : ℕ)
    → payload_length cls content ≡ ok (n, rest)
    → payload_length cls (content ++ more) ≡ ok (n, rest ++ more)
unfolding payload_length
payload_length-append cls content rest more n h = elim (Bool-cases (is_fixed_size cls)) [
  | inl fixed ↦
      let (e1, e2) : (fixed_payload_len ≡ n) × (content ≡ rest) =
        (cc (rw fixed at h), cc (rw fixed at h)) in
      rw (fixed, e1, e2)
  | inr variable ↦ rw variable (pop-append short content rest more n (rw variable at h))
]

fits_of : (n : ℕ) (content : Bytes) → ltb (length content) n ≡ false → n ≤ length content
fits_of n content h = ground arith

read_payload-more :
    (cls : CellType) (circ n : ℕ) (content rest more : Bytes) (f : Frame)
    → read_payload cls circ n content ≡ ok (f, rest)
    → read_payload cls circ n (content ++ more) ≡ ok (f, rest ++ more)
unfolding read_payload
read_payload-more cls circ n content rest more f h = elim (Bool-cases (ltb (length content) n)) [
  | inl missing ↦ cc (rw missing at h)
  | inr there ↦
      let front : Bytes = take n content in
      let len : length front ≡ n = omega (arith, length-take n content, fits_of n content there) in
      let order : content ++ more ≡ front ++ (drop n content ++ more) =
        ap (λ b. b ++ more) (sym (take-append-drop n content)) ∙ append_assoc front _ more in
      let (e1, e2) : (record { cls = cls; circ_id = circ; payload = front } ≡ f)
          × (drop n content ≡ rest) =
        (cc (rw there at h), cc (rw there at h)) in
      ap (λ b. read_payload cls circ n b) order
      ∙ read_payload-append cls circ n front (drop n content ++ more) len
      ∙ rw (e1, e2)
]

-- What follows a frame stays behind it.
pub pop_frame-append :
    (content rest more : Bytes) (version : ℕ) (f : Frame)
    → pop_frame content version ≡ ok (f, rest)
    → pop_frame (content ++ more) version ≡ ok (f, rest ++ more)
unfolding pop_frame
pop_frame-append content rest more version f h =
    let ((circ, c1), p1, h1) =
      >>=-eq-ok (Size.pop (link_protocol version).circ_id_size content) _ h in
    let ((command, c2), p2, h2) = >>=-eq-ok (Size.pop char c1) _ h1 in
    let (cls, found, h3) = >>=-eq-ok (by_value command) _ h2 in
    let ((n, c3), p3, h4) = >>=-eq-ok (payload_length cls c2) _ h3 in
    rw
      (
        pop-append (link_protocol version).circ_id_size content c1 more circ p1,
        pop-append char c1 c2 more command p2,
        found,
        payload_length-append cls c2 c3 more n p3,
      )
      (read_payload-more cls circ n c3 rest more f h4)
