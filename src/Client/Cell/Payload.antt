-- ===== src/Client/Cell/Payload.antt =====
-- The constructors, `pack` and `_unpack` of the cell classes of client/cell.py, but for RelayCell.
pub mod Laws
pub mod Loops
use stem.Base.{
  ℕ, zero, suc, ◌+◌, ◌*◌, List, [], ◌∷◌, ◌++◌, Bytes, ℤ, pos, negsuc, Bool, true, false, not,
  length, ltb, ◌==◌, if◌then◌else◌, Option, none, some, Value, num, ◌≡◌, refl,
}
use stem.Base.{Result, ok, err, value_error, stuck, not_implemented, ◌>>=◌, ◌>>◌, raise_if}
use stem.Client.Datatype.Enums.{close_reason, get}
use stem.Client.Datatype.Size
use stem.Client.Datatype.Size.{char, short, long, split}
use stem.Client.Datatype.Size.Laws.{pop-pack}
use stem.Client.Datatype.Field.{Field, pack_all, pop_many}
use stem.Client.Datatype.Address
use stem.Client.Datatype.Address.{Address}
use stem.Client.Datatype.Address.Laws as Addresses
use stem.Client.Datatype.Certificate
use stem.Client.Datatype.Certificate.{Certificate}
use stem.Client.Datatype.Certificate.Laws as Certificates
use stem.Client.Datatype.LinkProtocol.{fixed_payload_len}
use stem.Client.Cell.Types.{
  Cell, CellType, RelayCell, NetinfoCell, padding, create, created, relay, destroy, create_fast,
  created_fast, versions, netinfo, relay_early, create2, created2, padding_negotiate, vpadding,
  certs, auth_challenge, authenticate, authorize, padding_cell, relay_cell, destroy_cell,
  create_fast_cell, created_fast_cell, versions_cell, netinfo_cell, vpadding_cell, certs_cell,
  auth_challenge_cell, unimplemented,
}
use stem.Client.Cell.RelayCell

-- `HASH_LEN` and `AUTH_CHALLENGE_SIZE`
abbrev pub hash_len : ℕ
hash_len = 20

abbrev pub auth_challenge_size : ℕ
auth_challenge_size = 32

-- The two-byte integers of the versions and the authentication methods.
abbrev pub shorts : Field ℕ
shorts = record {
  pack = λ v. Size.pack short (num v);
  pop = Size.pop short;
  OnWire = λ v. Unit {0};
  pop-pack = λ v bs rest w h. pop-pack short v bs rest h;
}

abbrev pub pack_netinfo : NetinfoCell → Result Bytes
pack_netinfo c = do
  timestamp ← Size.pack long (num c.timestamp)
  receiver ← Address.pack c.receiver_address
  count ← Size.pack char (num (length c.sender_addresses))
  senders ← pack_all Addresses.field c.sender_addresses
  ok (timestamp ++ (receiver ++ (count ++ senders)))

abbrev pub pack_certs : List Certificate → Result Bytes
pack_certs certificates = do
  count ← Size.pack char (num (length certificates))
  packed ← pack_all Certificates.field certificates
  ok (count ++ packed)

abbrev pub pack_auth_challenge : List ℕ → Bytes → Result Bytes
pack_auth_challenge methods challenge = do
  count ← Size.pack short (num (length methods))
  packed ← pack_all shorts methods
  ok (challenge ++ (count ++ packed))

abbrev pub pack_padding : Bytes → Result Bytes
pack_padding payload = ok payload

abbrev pub pack_destroy : Value → Result Bytes
pack_destroy reason_int = Size.pack char reason_int

abbrev pub pack_create_fast : Bytes → Result Bytes
pack_create_fast key_material = ok key_material

abbrev pub pack_created_fast : Bytes → Bytes → Result Bytes
pack_created_fast derivative_key key_material = ok (key_material ++ derivative_key)

abbrev pub pack_versions : List ℕ → Result Bytes
pack_versions link_protocols = pack_all shorts link_protocols

abbrev pub pack_vpadding : Bytes → Result Bytes
pack_vpadding payload = ok payload

-- What a cell's class packs before the unused bytes.
unfoldable pub pack_payload : Cell → Result Bytes
pack_payload (padding_cell payload) = pack_padding payload
pack_payload (relay_cell c) = RelayCell.pack_payload c
pack_payload (destroy_cell circ_id reason reason_int unused) = pack_destroy reason_int
pack_payload (create_fast_cell circ_id key_material unused) = pack_create_fast key_material
pack_payload (created_fast_cell circ_id derivative_key key_material unused) =
    pack_created_fast derivative_key key_material
pack_payload (versions_cell link_protocols) = pack_versions link_protocols
pack_payload (netinfo_cell c) = pack_netinfo c
pack_payload (vpadding_cell payload) = pack_vpadding payload
pack_payload (certs_cell certificates unused) = pack_certs certificates
pack_payload (auth_challenge_cell methods challenge unused) = pack_auth_challenge methods challenge
pack_payload (unimplemented cls) = err not_implemented

-- `DestroyCell(circ_id, reason, unused)`
unfoldable pub init_destroy : ℕ → Value → Bytes → Result Cell
init_destroy circ_id reason unused = do
  (reason, reason_int) ← get close_reason reason
  ok (destroy_cell circ_id reason reason_int unused)

-- The loop over a VERSIONS payload. Each step takes two bytes, so that fuel for each byte is enough.
unfoldable pub pop_versions : ℕ → Bytes → Result (List ℕ)
pop_versions fuel [] = ok []
pop_versions zero (b ∷ content) = err stuck
pop_versions (suc fuel) (b ∷ content) = do
  (version, content) ← Size.pop short (b ∷ content)
  link_protocols ← pop_versions fuel content
  ok (version ∷ link_protocols)

-- The loop over a CERTS payload, which has to have content for each certificate.
unfoldable pub pop_certs : ℕ → Bytes → Result (List Certificate × Bytes)
pop_certs zero content = ok ([], content)
pop_certs (suc count) [] = err value_error
pop_certs (suc count) (b ∷ content) = do
  (cert, content) ← Certificate.pop (b ∷ content)
  (popped, content) ← pop_certs count content
  ok (cert ∷ popped, content)

abbrev pub unpack_destroy : Bytes → ℕ → Result Cell
unpack_destroy content circ_id = do
  (reason, unused) ← Size.pop char content
  init_destroy circ_id (num reason) unused

abbrev pub unpack_versions : Bytes → Result Cell
unpack_versions content = do
  link_protocols ← pop_versions (length content) content
  ok (versions_cell link_protocols)

abbrev pub unpack_certs : Bytes → Result Cell
unpack_certs content = do
  (cert_count, content) ← Size.pop char content
  (certificates, content) ← pop_certs cert_count content
  ok (certs_cell certificates content)

unfoldable pub unpack_netinfo : Bytes → Result Cell
unpack_netinfo content = do
  (timestamp, content) ← Size.pop long content
  (receiver_address, content) ← Address.pop content
  (sender_addr_count, content) ← Size.pop char content
  (sender_addresses, content) ← pop_many Addresses.field sender_addr_count content
  ok (
      netinfo_cell (record {
        timestamp = timestamp;
        receiver_address = receiver_address;
        sender_addresses = sender_addresses;
        unused = content;
      }))

module _ (urandom : ℕ → Bytes) where
  -- Random bytes where none are given; those that are given have to have the size.
  unfoldable pub sized_or_random : ℕ → Option Bytes → Result Bytes
  sized_or_random size none = ok (urandom size)
  sized_or_random size (some []) = ok (urandom size)
  sized_or_random size (some (b ∷ bs)) =
      if length (b ∷ bs) == size then ok (b ∷ bs) else err value_error

  unfoldable pub init_padding : Option Bytes → Result Cell
  init_padding payload = do
    payload ← sized_or_random fixed_payload_len payload
    ok (padding_cell payload)

  unfoldable pub init_create_fast : ℕ → Option Bytes → Bytes → Result Cell
  init_create_fast circ_id key_material unused = do
    key_material ← sized_or_random hash_len key_material
    ok (create_fast_cell circ_id key_material unused)

  unfoldable pub init_created_fast : ℕ → Bytes → Option Bytes → Bytes → Result Cell
  init_created_fast circ_id derivative_key key_material unused = do
    key_material ← sized_or_random hash_len key_material
    raise_if (not (length derivative_key == hash_len)) value_error
    ok (created_fast_cell circ_id derivative_key key_material unused)

  -- `VPaddingCell(size, payload)`
  unfoldable pub init_vpadding : Option ℤ → Option Bytes → Result Cell
  init_vpadding none none = err value_error
  init_vpadding none (some payload) = ok (vpadding_cell payload)
  init_vpadding (some (negsuc n)) payload = err value_error
  init_vpadding (some (pos n)) none = ok (vpadding_cell (urandom n))
  init_vpadding (some (pos n)) (some payload) =
      if n == length payload then ok (vpadding_cell payload) else err value_error

  unfoldable pub init_auth_challenge : List ℕ → Option Bytes → Bytes → Result Cell
  init_auth_challenge methods challenge unused = do
    challenge ← sized_or_random auth_challenge_size challenge
    ok (auth_challenge_cell methods challenge unused)

  unfoldable pub unpack_create_fast : Bytes → ℕ → Result Cell
  unpack_create_fast content circ_id = do
    let (key_material, unused) = split content hash_len
    raise_if (not (length key_material == hash_len)) value_error
    init_create_fast circ_id (some key_material) unused

  unfoldable pub unpack_created_fast : Bytes → ℕ → Result Cell
  unpack_created_fast content circ_id = do
    raise_if (ltb (length content) (hash_len * 2)) value_error
    let (key_material, content) = split content hash_len
    let (derivative_key, content) = split content hash_len
    init_created_fast circ_id derivative_key (some key_material) content

  unfoldable pub unpack_auth_challenge : Bytes → Result Cell
  unpack_auth_challenge content = do
    raise_if (ltb (length content) (auth_challenge_size + short.size)) value_error
    let (challenge, content) = split content auth_challenge_size
    (method_count, content) ← Size.pop short content
    raise_if (ltb (length content) (method_count * short.size)) value_error
    (methods, content) ← pop_many shorts method_count content
    init_auth_challenge methods (some challenge) content

  abbrev pub unpack_padding : Bytes → Result Cell
  unpack_padding content = init_padding (some content)

  abbrev pub unpack_vpadding : Bytes → Result Cell
  unpack_vpadding content = init_vpadding none (some content)

  abbrev pub unpack_relay : Bytes → ℕ → Result Cell
  unpack_relay content circ_id = do c ← RelayCell.unpack content circ_id; ok (relay_cell c)

  -- `cls._unpack(content, circ_id, link_protocol)`
  unfoldable pub unpack_payload : CellType → Bytes → ℕ → Result Cell
  unpack_payload padding content circ_id = unpack_padding content
  unpack_payload relay content circ_id = unpack_relay content circ_id
  unpack_payload destroy content circ_id = unpack_destroy content circ_id
  unpack_payload create_fast content circ_id = unpack_create_fast content circ_id
  unpack_payload created_fast content circ_id = unpack_created_fast content circ_id
  unpack_payload versions content circ_id = unpack_versions content
  unpack_payload netinfo content circ_id = unpack_netinfo content
  unpack_payload vpadding content circ_id = unpack_vpadding content
  unpack_payload certs content circ_id = unpack_certs content
  unpack_payload auth_challenge content circ_id = unpack_auth_challenge content
  unpack_payload create content circ_id = err not_implemented
  unpack_payload created content circ_id = err not_implemented
  unpack_payload relay_early content circ_id = err not_implemented
  unpack_payload create2 content circ_id = err not_implemented
  unpack_payload created2 content circ_id = err not_implemented
  unpack_payload padding_negotiate content circ_id = err not_implemented
  unpack_payload authenticate content circ_id = err not_implemented
  unpack_payload authorize content circ_id = err not_implemented
