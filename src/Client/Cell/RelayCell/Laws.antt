-- ===== src/Client/Cell/RelayCell/Laws.antt =====
-- The payload of a relay cell is unpacked as it was packed.
use stem.Base.{
  ℕ, ◌++◌, ◌≡◌, sym, ap, subst, ◌∙◌, arith, Bytes, true, length, ◌==◌, Value, num, ok, >>=-eq-ok,
  append_assoc, take-append, drop-append,
}
use stem.Client.Datatype.Enums.{relay_command, get}
use stem.Client.Datatype.Enums.Laws.{get-get, all_Unique}
use stem.Client.Datatype.Size
use stem.Client.Datatype.Size.{char, short, long, to_bytes}
use stem.Client.Datatype.Size.Laws.{pop-pack, pack_num}
use stem.Client.Cell.Types.{RelayCell}
use stem.Client.Cell.RelayCell.{
  Digest, of_int, digest_int, check_stream_id, init, pack_payload, unpack,
}

-- What every relay cell that the constructor makes fulfils.
pub record IsRelayCell (c : RelayCell) : Type 0 where
  pub given : Value
  pub known : get relay_command given ≡ ok (c.command, c.command_int)
  pub stream : check_stream_id c.command c.digest c.stream_id ≡ ok tt

-- The constructor keeps what it is given, and makes cells that fulfil this.
pub init-IsRelayCell :
    (circ_id : ℕ) (command : Value) (content : Bytes) (digest : Digest) (stream_id recognized : ℕ)
    (unused : Bytes) (c : RelayCell)
    → init circ_id command content digest stream_id recognized unused ≡ ok c
    → IsRelayCell c
unfolding init
init-IsRelayCell circ_id command content digest stream_id recognized unused c h = record {
  given = command;
  known = ground arith;
  stream = ground arith;
}

-- The same constructor call with the integer of the command, for another circuit.
init-command_int :
    (c : RelayCell) (n circ : ℕ) (unused : Bytes)
    → IsRelayCell c
    → c.command_int ≡ num n
    → init circ (num n) c.content (of_int c.digest) c.stream_id c.recognized unused
      ≡ ok (record c { circ_id = circ; unused = unused })
unfolding init digest_int
init-command_int c n circ unused valid e =
    let known : get relay_command valid.given ≡ ok (c.command, num n) = rw e at valid.known in
    rw (get-get relay_command valid.given c.command n all_Unique.1 known, valid.stream) (cc e)

-- The fields of a packed payload.
record Parts (c : RelayCell) (payload : Bytes) : Type 0 where
  n : ℕ
  b1 : Bytes
  b2 : Bytes
  b3 : Bytes
  b4 : Bytes
  b5 : Bytes
  is_num : c.command_int ≡ num n
  p1 : Size.pack char (num n) ≡ ok b1
  p2 : Size.pack short (num c.recognized) ≡ ok b2
  p3 : Size.pack short (num c.stream_id) ≡ ok b3
  p4 : Size.pack long (num c.digest) ≡ ok b4
  p5 : Size.pack short (num (length c.content)) ≡ ok b5
  whole : b1 ++ (b2 ++ (b3 ++ (b4 ++ (b5 ++ c.content)))) ≡ payload

pack_payload_inv : (c : RelayCell) (payload : Bytes) → pack_payload c ≡ ok payload → Parts c payload
unfolding pack_payload
pack_payload_inv c payload h =
    let (b1, p1, h1) = >>=-eq-ok (Size.pack char c.command_int) _ h in
    let (n, is_num) = pack_num char c.command_int b1 p1 in
    let (b2, p2, h2) = >>=-eq-ok (Size.pack short (num c.recognized)) _ h1 in
    let (b3, p3, h3) = >>=-eq-ok (Size.pack short (num c.stream_id)) _ h2 in
    let (b4, p4, h4) = >>=-eq-ok (Size.pack long (num c.digest)) _ h3 in
    let (b5, p5, h5) = >>=-eq-ok (Size.pack short (num (length c.content))) _ h4 in
    record {
      n = n;
      b1 = b1;
      b2 = b2;
      b3 = b3;
      b4 = b4;
      b5 = b5;
      is_num = is_num;
      p1 = subst (λ v. Size.pack char v ≡ ok b1) is_num p1;
      p2 = p2;
      p3 = p3;
      p4 = p4;
      p5 = p5;
      whole = cc h5;
    }

-- A relay cell is unpacked from its payload, for any circuit, with what stands behind it unused.
pub unpack-pack_payload :
    (c : RelayCell) (payload extra : Bytes) (circ : ℕ)
    → IsRelayCell c
    → pack_payload c ≡ ok payload
    → unpack (payload ++ extra) circ ≡ ok (record c { circ_id = circ; unused = extra })
unfolding unpack
unpack-pack_payload c payload extra circ valid h =
    let parts = pack_payload_inv c payload h in
    let order : payload ++ extra
        ≡ parts.b1 ++ (parts.b2 ++ (parts.b3 ++ (parts.b4 ++ (parts.b5 ++ (c.content ++ extra))))) =
      ap (λ p. p ++ extra) (sym parts.whole) ∙ simp append_assoc in
    let exact : (length c.content == length c.content) ≡ true = ground arith in
    rw
      (
        order,
        pop-pack char parts.n parts.b1 _ parts.p1,
        pop-pack short c.recognized parts.b2 _ parts.p2,
        pop-pack short c.stream_id parts.b3 _ parts.p3,
        pop-pack long c.digest parts.b4 _ parts.p4,
        pop-pack short (length c.content) parts.b5 _ parts.p5,
        take-append c.content extra,
        drop-append c.content extra,
        exact,
      )
      (init-command_int c parts.n circ extra valid parts.is_num)
