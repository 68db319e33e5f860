-- ===== src/Client/Cell/RelayCell.antt =====
-- `RelayCell` of client/cell.py: its constructor, its payload and the layered encryption.
pub mod Laws
pub mod Encryption
use Prim.Native.String.{String}
use text.Mathlib.Text.{◌==◌ as str_eq}
use stem.Base.{
  ℕ, ◌+◌, List, [], ◌∷◌, ◌++◌, Bytes, Bool, true, false, not, ◌&&◌, ◌||◌, length, take, ltb, ◌==◌,
  if◌then◌else◌, Option, none, some, Value, num, str,
}
use stem.Base.{Result, ok, err, value_error, protocol_error, ◌>>=◌, ◌>>◌, raise_if}
use stem.Client.Datatype.Enums.{relay_command, get}
use stem.Client.Datatype.Size
use stem.Client.Datatype.Size.{char, short, long, split}
use stem.Client.Datatype.LinkProtocol.{LinkProtocol, link_protocol}
use stem.Client.Cell.Types.{CellType, RelayCell, relay, cell_value}
use stem.Client.Cell.Frame.{pack_cell}

-- `command in names`
unfoldable pub is_one_of : String → List String → Bool
is_one_of command [] = false
is_one_of command (name ∷ names) = str_eq command name || is_one_of command names

abbrev pub stream_id_required : List String
stream_id_required =
    "RELAY_BEGIN" ∷ "RELAY_DATA" ∷ "RELAY_END" ∷ "RELAY_CONNECTED" ∷ "RELAY_RESOLVE"
    ∷ "RELAY_RESOLVED" ∷ "RELAY_BEGIN_DIR" ∷ []

abbrev pub stream_id_disallowed : List String
stream_id_disallowed =
    "RELAY_EXTEND" ∷ "RELAY_EXTENDED" ∷ "RELAY_TRUNCATE" ∷ "RELAY_TRUNCATED" ∷ "RELAY_DROP"
    ∷ "RELAY_EXTEND2" ∷ "RELAY_EXTENDED2" ∷ []

-- A digest is given as an integer, or as bytes (those of a hash object are its `digest()`).
pub data Digest : Type 0 where
  of_int : ℕ → Digest
  of_bytes : Bytes → Digest

unfoldable pub digest_int : Digest → Result ℕ
digest_int (of_int n) = ok n
digest_int (of_bytes bs) = Size.unpack long (take long.size bs)

-- The checks of the stream id, which are made only of a cell with no digest.
unfoldable pub check_stream_id : String → ℕ → ℕ → Result (Unit {0})
unfolding is_one_of
check_stream_id command digest stream_id =
    raise_if
      (digest == 0
        && ((stream_id == 0 && is_one_of command stream_id_required)
            || (not (stream_id == 0) && is_one_of command stream_id_disallowed)))
      value_error

-- `RelayCell(circ_id, command, data, digest, stream_id, recognized, unused)`
unfoldable pub init : ℕ → Value → Bytes → Digest → ℕ → ℕ → Bytes → Result RelayCell
init circ_id command content digest stream_id recognized unused = do
  digest ← digest_int digest
  (command, command_int) ← get relay_command command
  check_stream_id command digest stream_id
  ok (record {
    circ_id = circ_id;
    command = command;
    command_int = command_int;
    content = content;
    digest = digest;
    stream_id = stream_id;
    recognized = recognized;
    unused = unused;
  })

unfoldable pub pack_payload : RelayCell → Result Bytes
pack_payload c = do
  command ← Size.pack char c.command_int
  recognized ← Size.pack short (num c.recognized)
  stream_id ← Size.pack short (num c.stream_id)
  digest ← Size.pack long (num c.digest)
  size ← Size.pack short (num (length c.content))
  ok (command ++ (recognized ++ (stream_id ++ (digest ++ (size ++ c.content)))))

unfoldable pub pack : RelayCell → ℕ → Result Bytes
pack c version = do
  payload ← pack_payload c
  pack_cell relay version payload c.unused (some c.circ_id)

unfoldable pub unpack : Bytes → ℕ → Result RelayCell
unpack content circ_id = do
  (command, content) ← Size.pop char content
  (recognized, content) ← Size.pop short content
  (stream_id, content) ← Size.pop short content
  (digest, content) ← Size.pop long content
  (data_len, content) ← Size.pop short content
  let (body, unused) = split content data_len
  raise_if (not (length body == data_len)) value_error
  init circ_id (num command) body (of_int digest) stream_id recognized unused

-- The cipher contexts and hash objects of the libraries: what `update` returns and becomes, and
-- the digest of a hash. `copy` gives a value of its own, so that states are passed explicitly.
pub record Crypto : Type 1 where
  pub Key : Type 0
  pub Hash : Type 0
  pub update : Key → Bytes → Bytes × Key
  pub hash_update : Hash → Bytes → Hash
  pub hash_digest : Hash → Bytes

module _ (crypto : Crypto) where
  open crypto use {Key, Hash, update, hash_update, hash_digest}

  -- `cell.encrypt(link_protocol, key, digest)`: the payload with its new key and digest.
  unfoldable pub encrypt : RelayCell → ℕ → Key → Hash → Result (Bytes × Key × Hash)
  encrypt c version key digest = do
    let header_size = (link_protocol version).circ_id_size.size + 1
    packed ← pack c version
    let new_digest = hash_update digest (split packed header_size).1
    cell ←
        init c.circ_id (str c.command) c.content (of_bytes (hash_digest new_digest)) c.stream_id
          c.recognized c.unused
    repacked ← pack cell version
    let (header, payload) = split repacked header_size
    let (encrypted, new_key) = update key payload
    ok (header ++ encrypted, new_key, new_digest)

  -- `RelayCell.decrypt(link_protocol, content, key, digest)`; the digest is returned as it was.
  unfoldable pub decrypt : ℕ → Bytes → Key → Hash → Result (RelayCell × Key × Hash)
  decrypt version content key digest = do
    raise_if (not (length content == (link_protocol version).fixed_cell_length)) protocol_error
    (circ_id, content) ← Size.pop (link_protocol version).circ_id_size content
    (command, encrypted) ← Size.pop char content
    raise_if (not (command == cell_value relay)) protocol_error
    let (payload, new_key) = update key encrypted
    cell ← unpack payload circ_id
    ok (cell, new_key, digest)
