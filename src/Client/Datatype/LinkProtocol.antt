-- ===== src/Client/Datatype/LinkProtocol.antt =====
-- `LinkProtocol` of client/datatype.py: what depends on the version of the link protocol.
use stem.Base.{ℕ, ◌+◌, ltb, if◌then◌else◌}
use stem.Client.Datatype.Size.{Size, short, long}

-- `FIXED_PAYLOAD_LEN` of client/cell.py
abbrev pub fixed_payload_len : ℕ
fixed_payload_len = 509

pub record LinkProtocol : Type 0 where
  pub version : ℕ
  pub circ_id_size : Size
  pub first_circ_id : ℕ
  pub fixed_cell_length : ℕ

abbrev pub circ_id_size_of : ℕ → Size
circ_id_size_of version = if ltb 3 version then long else short

unfoldable pub link_protocol : ℕ → LinkProtocol
link_protocol version = record {
  version = version;
  circ_id_size = circ_id_size_of version;
  first_circ_id = if ltb 3 version then 0x80000000 else 0x01;
  fixed_cell_length = (circ_id_size_of version).size + 1 + fixed_payload_len;
}
