-- ===== src/Client/Relay.antt =====
-- `Relay` and `Circuit` of client/__init__.py: the connection with a relay's ORPort.
pub mod Laws
pub mod Pieces
mod Tests
use Prim.Native.String.{String}
use text.Mathlib.Text.{◌==◌ as str_eq}
use stem.Base.{
  ℕ, zero, suc, ◌+◌, List, [], ◌∷◌, ◌++◌, Bytes, Bool, true, false, not, ◌&&◌, ◌||◌, ltb, ◌==◌,
  if◌then◌else◌, length, drop, Option, none, some, Value, num, str, Text, text_eq, ℤ,
}
use stem.Base.{
  Result, ok, err, Error, value_error, attribute_error, protocol_error, socket_error, stuck, ◌>>=◌,
  ◌>>◌, raise_if,
}
use stem.Client.Datatype.Size
use stem.Client.Datatype.Size.{char, short, split}
use stem.Client.Datatype.LinkProtocol.{LinkProtocol, link_protocol, fixed_payload_len}
use stem.Client.Datatype.Address
use stem.Client.Datatype.Address.{Address}
use stem.Util.Connection.Port.{is_valid_port_int}
use stem.Client.Datatype.Kdf
use stem.Client.Datatype.Kdf.{Kdf, hash_len}
use stem.Client.Cell.Types.{
  Cell, CellType, RelayCell, is_fixed_size, by_value, versions_cell, netinfo_cell,
  created_fast_cell, create_fast_cell,
}
use stem.Client.Cell.Payload.{init_create_fast, init_destroy}
use stem.Client.Cell.RelayCell
use stem.Client.Cell.RelayCell.{Crypto, of_int, encrypt, decrypt}
use stem.Client.Cell.Wire

-- The versions that both sides name; `max` of them, if there is one.
unfoldable pub is_in : ℕ → List ℕ → Bool
is_in v [] = false
is_in v (w ∷ ws) = v == w || is_in v ws

unfoldable pub common : List ℕ → List ℕ → List ℕ
unfolding is_in
common [] theirs = []
common (v ∷ ours) theirs =
    let rest = common ours theirs in if is_in v theirs then v ∷ rest else rest

abbrev pub larger : ℕ → Option ℕ → ℕ
larger v none = v
larger v (some m) = if ltb m v then v else m

unfoldable pub maximum : List ℕ → Option ℕ
maximum [] = none
maximum (v ∷ vs) = some (larger v (maximum vs))

-- The reply's VERSIONS cell; a cell of another class has no versions.
abbrev pub versions_of : Cell → Result (List ℕ)
versions_of (versions_cell theirs) = ok theirs
versions_of c = err attribute_error

abbrev pub agreed : Option ℕ → Result ℕ
agreed none = err socket_error
agreed (some version) = ok version

module _ (urandom : ℕ → Bytes) where
  -- The link protocol that the reply to our VERSIONS cell leads to.
  unfoldable pub negotiate : List ℕ → Bytes → Result ℕ
  negotiate link_protocols response = do
    raise_if (length response == 0) socket_error
    (reply, rest) ← Wire.pop urandom response 2
    theirs ← versions_of reply
    agreed (maximum (common link_protocols theirs))

  -- `Relay.connect`: what is sent, and the link protocol. The VERSIONS cell is packed for version 2.
  unfoldable pub connect : Text → ℤ → List ℕ → ℕ → Bytes → Result (Bytes × Bytes × ℕ)
  connect address port link_protocols now response = do
    relay_addr ← Address.init address none
    raise_if (not (is_valid_port_int port false)) value_error
    raise_if (length link_protocols == 0) value_error
    hello ← Wire.pack (versions_cell link_protocols) 2
    version ← negotiate link_protocols response
    info ←
        Wire.pack
          (netinfo_cell (record {
            timestamp = now;
            receiver_address = relay_addr;
            sender_addresses = [];
            unused = [];
          }))
          version
    ok (hello, info, version)

-- What was read and is not yet used, and the pieces that are still to come from the socket.
pub record Stream : Type 0 where
  pub buffer : Bytes
  pub pieces : List Bytes

-- `while len(self._orport_buffer) < size: self._orport_buffer += await self._orport.recv()`. With no
-- piece left the call still waits.
unfoldable pub await_size : ℕ → Bytes → List Bytes → Result Stream
await_size size buffer [] =
    if ltb (length buffer) size then err stuck else ok (record { buffer = buffer; pieces = [] })
await_size size buffer (piece ∷ pieces) =
    let more = await_size size (buffer ++ piece) pieces in
    if ltb (length buffer) size
    then more
    else ok (record { buffer = buffer; pieces = piece ∷ pieces })

-- The size of the cell as the source computes it, and the buffer once this is known.
unfoldable pub cell_size : ℕ → CellType → Stream → Result (ℕ × Stream)
cell_size circ_id_size cls s =
    if is_fixed_size cls then ok (circ_id_size + char.size + fixed_payload_len, s) else (do
      s ← await_size (circ_id_size + char.size + fixed_payload_len) s.buffer s.pieces
      (payload_len, rest) ← Size.pop short (drop (circ_id_size + char.size) s.buffer)
      ok (circ_id_size + char.size + payload_len, s))

-- The part of `_recv` that reads until the cell is there: its size, and the buffer.
unfoldable pub await_cell : ℕ → Stream → Result (ℕ × Stream)
await_cell version s = do
  let circ_id_size = (link_protocol version).circ_id_size.size
  s ← await_size (circ_id_size + char.size) s.buffer s.pieces
  (command, rest) ← Size.pop char (drop circ_id_size s.buffer)
  cls ← by_value command
  (size, s) ← cell_size circ_id_size cls s
  s ← await_size size s.buffer s.pieces
  ok (size, s)

-- `_recv(raw = True)`
unfoldable pub recv_bytes : ℕ → Stream → Result (Bytes × Stream)
recv_bytes version s = do
  (size, s) ← await_cell version s
  let (content, buffer) = split s.buffer size
  ok (content, record s { buffer = buffer })

module _ (urandom : ℕ → Bytes) where
  -- `_recv()`
  unfoldable pub recv : ℕ → Stream → Result (Cell × Stream)
  recv version s = do
    (size, s) ← await_cell version s
    (c, buffer) ← Wire.pop urandom s.buffer version
    ok (c, record s { buffer = buffer })

-- The circuits of a relay by their ids, and the id of the next.
abbrev pub next_after : ℕ → Option ℕ → ℕ
next_after first_circ_id none = first_circ_id
next_after first_circ_id (some m) = m + 1

unfoldable pub next_circ_id : ℕ → List ℕ → ℕ
next_circ_id first_circ_id circuits = next_after first_circ_id (maximum circuits)

unfoldable pub same_bytes : Bytes → Bytes → Bool
unfolding text_eq
same_bytes a b = text_eq a b

module _ (urandom : ℕ → Bytes) (sha1 : Bytes → Bytes) where
  -- The keys that a reply to our CREATE_FAST cell gives, if the relay proves that it has them.
  unfoldable pub shared_keys : Bytes → Cell → Result Kdf
  shared_keys key_material (created_fast_cell circ_id derivative_key reply_material unused) = do
    kdf ← Kdf.from_value sha1 (key_material ++ reply_material)
    raise_if (not (same_bytes derivative_key kdf.key_hash)) value_error
    ok kdf
  shared_keys key_material reply = err value_error

  -- `Relay.create_circuit`: what is sent, the id and the keys. `response` is what the socket gives.
  unfoldable pub create_circuit : ℕ → List ℕ → Bytes → Result (Bytes × ℕ × Kdf)
  create_circuit version circuits response = do
    let circ_id = next_circ_id (link_protocol version).first_circ_id circuits
    let key_material = urandom hash_len
    request ← Wire.pack (create_fast_cell circ_id key_material []) version
    (reply, rest) ← Wire.pop urandom response version
    kdf ← shared_keys key_material reply
    ok (request, circ_id, kdf)

module _ (crypto : Crypto) where
  open crypto use {Key, Hash}

  -- `Circuit._send`: the encrypted cell, with the key and the digest that are kept once it is sent.
  unfoldable pub send : ℕ → ℕ → String → Bytes → ℕ → Key → Hash → Result (Bytes × Key × Hash)
  send version id command content stream_id key digest = do
    cell ← RelayCell.init id (str command) content (of_int 0) stream_id 0 []
    encrypt crypto cell version key digest

  -- The loop of `Circuit.directory` over the cells that are received: the data up to the END cell,
  -- with the key and the digest that are kept.
  unfoldable pub read_response : ℕ → ℕ → List Bytes → Key → Hash → Result (Bytes × Key × Hash)
  read_response version id [] key digest = err stuck
  read_response version id (encrypted ∷ cells) key digest = do
    (cell, new_key, new_digest) ← decrypt crypto version encrypted key digest
    raise_if (not (id == cell.circ_id)) protocol_error
    let rest = read_response version id cells new_key new_digest
    if str_eq cell.command "RELAY_END" then ok ([], new_key, new_digest) else (do
      (content, last_key, last_digest) ← rest
      ok (cell.content ++ content, last_key, last_digest))

-- `Circuit.close`: the cell that is sent, and the circuits that are left.
unfoldable pub without : ℕ → List ℕ → List ℕ
without id [] = []
without id (c ∷ cs) = let rest = without id cs in if c == id then rest else c ∷ rest

unfoldable pub close : ℕ → ℕ → List ℕ → Result (Bytes × List ℕ)
close version id circuits = do
  c ← init_destroy id (str "NONE") []
  packed ← Wire.pack c version
  ok (packed, without id circuits)
