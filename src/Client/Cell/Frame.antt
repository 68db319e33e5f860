-- ===== src/Client/Cell/Frame.antt =====
-- `Cell._pack` and the header that `Cell.pop` reads, of client/cell.py.
pub mod Laws
use stem.Base.{
  ℕ, ◌+◌, ◌-◌, List, [], ◌∷◌, ◌++◌, Bytes, Bool, true, false, length, replicate, ltb, ◌==◌,
  if◌then◌else◌, Option, none, some, num,
}
use stem.Base.{Result, ok, err, value_error, ◌>>=◌, ◌>>◌, raise_if}
use stem.Client.Datatype.Size
use stem.Client.Datatype.Size.{char, short, split}
use stem.Client.Datatype.LinkProtocol.{LinkProtocol, link_protocol, fixed_payload_len}
use stem.Client.Cell.Types.{CellType, cell_value, is_fixed_size, is_circuit_cell, by_value}

-- A circuit cell has a positive circuit id, and any other cell has none, for which zero is written.
unfoldable pub checked_circ_id : CellType → Option ℕ → Result ℕ
checked_circ_id cls none = if is_circuit_cell cls then err value_error else ok 0
checked_circ_id cls (some circ_id) =
    if is_circuit_cell cls
    then (if ltb circ_id 1 then err value_error else ok circ_id)
    else err value_error

-- The size of a cell that has no fixed size.
unfoldable pub size_field : CellType → Bytes → Bytes → Result Bytes
size_field cls payload unused =
    if is_fixed_size cls then ok [] else Size.pack short (num (length payload + length unused))

-- Cells of a fixed size are padded with zeros.
unfoldable pub pad : CellType → ℕ → Bytes → Result Bytes
pad cls cell_length cell =
    if is_fixed_size cls
    then (if ltb cell_length (length cell)
        then err value_error
        else ok (cell ++ replicate (cell_length - length cell) 0))
    else ok cell

-- `cls._pack(link_protocol, payload, unused, circ_id)`
unfoldable pub pack_cell : CellType → ℕ → Bytes → Bytes → Option ℕ → Result Bytes
pack_cell cls version payload unused circ_id = do
  circ ← checked_circ_id cls circ_id
  let protocol = link_protocol version
  circ_bytes ← Size.pack protocol.circ_id_size (num circ)
  command ← Size.pack char (num (cell_value cls))
  size ← size_field cls payload unused
  pad cls protocol.fixed_cell_length (circ_bytes ++ (command ++ (size ++ (payload ++ unused))))

-- The length of the payload that follows, and what follows the length.
unfoldable pub payload_length : CellType → Bytes → Result (ℕ × Bytes)
payload_length cls content =
    if is_fixed_size cls then ok (fixed_payload_len, content) else Size.pop short content

pub record Frame : Type 0 where
  pub cls : CellType
  pub circ_id : ℕ
  pub payload : Bytes

-- The payload is split off, if it is there.
unfoldable pub read_payload : CellType → ℕ → ℕ → Bytes → Result (Frame × Bytes)
read_payload cls circ_id payload_len content = do
  raise_if (ltb (length content) payload_len) value_error
  let (payload, content) = split content payload_len
  ok (record { cls = cls; circ_id = circ_id; payload = payload }, content)

-- The part of `Cell.pop` before the class unpacks its payload.
unfoldable pub pop_frame : Bytes → ℕ → Result (Frame × Bytes)
pop_frame content version = do
  let protocol = link_protocol version
  (circ_id, content) ← Size.pop protocol.circ_id_size content
  (command, content) ← Size.pop char content
  cls ← by_value command
  (payload_len, content) ← payload_length cls content
  read_payload cls circ_id payload_len content
