-- ===== src/Client/Cell/Types.antt =====
-- The cell classes of client/cell.py with their NAME, VALUE and IS_FIXED_SIZE, and the cells.
use Prim.Native.String.{String}
use stem.Base.{
  ℕ, List, [], Option, none, some, Bytes, Bool, true, false, Value, Result, ok, err, value_error,
  ◌==◌, if◌then◌else◌,
}
use stem.Client.Datatype.Address.{Address}
use stem.Client.Datatype.Certificate.{Certificate}

pub data CellType : Type 0 where
  padding create created relay destroy create_fast created_fast versions netinfo : CellType
  relay_early create2 created2 padding_negotiate vpadding certs auth_challenge : CellType
  authenticate authorize : CellType

-- `VALUE` and `IS_FIXED_SIZE` of each class.
abbrev pub padding_class : ℕ × Bool
padding_class = (0, true)

abbrev pub create_class : ℕ × Bool
create_class = (1, true)

abbrev pub created_class : ℕ × Bool
created_class = (2, true)

abbrev pub relay_class : ℕ × Bool
relay_class = (3, true)

abbrev pub destroy_class : ℕ × Bool
destroy_class = (4, true)

abbrev pub create_fast_class : ℕ × Bool
create_fast_class = (5, true)

abbrev pub created_fast_class : ℕ × Bool
created_fast_class = (6, true)

abbrev pub versions_class : ℕ × Bool
versions_class = (7, false)

abbrev pub netinfo_class : ℕ × Bool
netinfo_class = (8, true)

abbrev pub relay_early_class : ℕ × Bool
relay_early_class = (9, true)

abbrev pub create2_class : ℕ × Bool
create2_class = (10, true)

abbrev pub created2_class : ℕ × Bool
created2_class = (11, true)

abbrev pub padding_negotiate_class : ℕ × Bool
padding_negotiate_class = (12, true)

abbrev pub vpadding_class : ℕ × Bool
vpadding_class = (128, false)

abbrev pub certs_class : ℕ × Bool
certs_class = (129, false)

abbrev pub auth_challenge_class : ℕ × Bool
auth_challenge_class = (130, false)

abbrev pub authenticate_class : ℕ × Bool
authenticate_class = (131, false)

abbrev pub authorize_class : ℕ × Bool
authorize_class = (132, false)

-- `cls.VALUE`
unfoldable pub cell_value : CellType → ℕ
cell_value padding = padding_class.0
cell_value create = create_class.0
cell_value created = created_class.0
cell_value relay = relay_class.0
cell_value destroy = destroy_class.0
cell_value create_fast = create_fast_class.0
cell_value created_fast = created_fast_class.0
cell_value versions = versions_class.0
cell_value netinfo = netinfo_class.0
cell_value relay_early = relay_early_class.0
cell_value create2 = create2_class.0
cell_value created2 = created2_class.0
cell_value padding_negotiate = padding_negotiate_class.0
cell_value vpadding = vpadding_class.0
cell_value certs = certs_class.0
cell_value auth_challenge = auth_challenge_class.0
cell_value authenticate = authenticate_class.0
cell_value authorize = authorize_class.0

-- `cls.IS_FIXED_SIZE`
unfoldable pub is_fixed_size : CellType → Bool
is_fixed_size versions = versions_class.1
is_fixed_size vpadding = vpadding_class.1
is_fixed_size certs = certs_class.1
is_fixed_size auth_challenge = auth_challenge_class.1
is_fixed_size authenticate = authenticate_class.1
is_fixed_size authorize = authorize_class.1
is_fixed_size padding = padding_class.1
is_fixed_size create = create_class.1
is_fixed_size created = created_class.1
is_fixed_size relay = relay_class.1
is_fixed_size destroy = destroy_class.1
is_fixed_size create_fast = create_fast_class.1
is_fixed_size created_fast = created_fast_class.1
is_fixed_size netinfo = netinfo_class.1
is_fixed_size relay_early = relay_early_class.1
is_fixed_size create2 = create2_class.1
is_fixed_size created2 = created2_class.1
is_fixed_size padding_negotiate = padding_negotiate_class.1

-- `issubclass(cls, CircuitCell)`
unfoldable pub is_circuit_cell : CellType → Bool
is_circuit_cell create = true
is_circuit_cell created = true
is_circuit_cell relay = true
is_circuit_cell destroy = true
is_circuit_cell create_fast = true
is_circuit_cell created_fast = true
is_circuit_cell relay_early = true
is_circuit_cell create2 = true
is_circuit_cell padding = false
is_circuit_cell versions = false
is_circuit_cell netinfo = false
is_circuit_cell created2 = false
is_circuit_cell padding_negotiate = false
is_circuit_cell vpadding = false
is_circuit_cell certs = false
is_circuit_cell auth_challenge = false
is_circuit_cell authenticate = false
is_circuit_cell authorize = false

-- `Cell.by_value(value)`, for a value that was read from the wire.
unfoldable pub by_value : ℕ → Result CellType
by_value value =
    if value == 0
    then ok padding
    else if value == 1
    then ok create
    else if value == 2
    then ok created
    else if value == 3
    then ok relay
    else if value == 4
    then ok destroy
    else if value == 5
    then ok create_fast
    else if value == 6
    then ok created_fast
    else if value == 7
    then ok versions
    else if value == 8
    then ok netinfo
    else if value == 9
    then ok relay_early
    else if value == 10
    then ok create2
    else if value == 11
    then ok created2
    else if value == 12
    then ok padding_negotiate
    else if value == 128
    then ok vpadding
    else if value == 129
    then ok certs
    else if value == 130
    then ok auth_challenge
    else if value == 131
    then ok authenticate
    else if value == 132
    then ok authorize
    else err value_error

pub record RelayCell : Type 0 where
  pub circ_id : ℕ
  pub command : String
  pub command_int : Value
  pub content : Bytes
  pub digest : ℕ
  pub stream_id : ℕ
  pub recognized : ℕ
  pub unused : Bytes

-- The time is in seconds since 1970, as it is on the wire.
pub record NetinfoCell : Type 0 where
  pub timestamp : ℕ
  pub receiver_address : Address
  pub sender_addresses : List Address
  pub unused : Bytes

-- One constructor for each class with fields of its own, which come in the order of the class's
-- constructor. `unimplemented` is a cell of a class that neither packs nor unpacks.
pub data Cell : Type 0 where
  padding_cell : Bytes → Cell
  relay_cell : RelayCell → Cell
  destroy_cell : ℕ → String → Value → Bytes → Cell
  create_fast_cell : ℕ → Bytes → Bytes → Cell
  created_fast_cell : ℕ → Bytes → Bytes → Bytes → Cell
  versions_cell : List ℕ → Cell
  netinfo_cell : NetinfoCell → Cell
  vpadding_cell : Bytes → Cell
  certs_cell : List Certificate → Bytes → Cell
  auth_challenge_cell : List ℕ → Bytes → Bytes → Cell
  unimplemented : CellType → Cell

-- `type(self)`
unfoldable pub class_of : Cell → CellType
class_of (padding_cell payload) = padding
class_of (relay_cell c) = relay
class_of (destroy_cell circ_id reason reason_int unused) = destroy
class_of (create_fast_cell circ_id key_material unused) = create_fast
class_of (created_fast_cell circ_id derivative_key key_material unused) = created_fast
class_of (versions_cell link_protocols) = versions
class_of (netinfo_cell c) = netinfo
class_of (vpadding_cell payload) = vpadding
class_of (certs_cell certificates unused) = certs
class_of (auth_challenge_cell methods challenge unused) = auth_challenge
class_of (unimplemented cls) = cls

-- `self.circ_id` of the circuit cells
unfoldable pub circuit_of : Cell → Option ℕ
circuit_of (relay_cell c) = some c.circ_id
circuit_of (destroy_cell circ_id reason reason_int unused) = some circ_id
circuit_of (create_fast_cell circ_id key_material unused) = some circ_id
circuit_of (created_fast_cell circ_id derivative_key key_material unused) = some circ_id
circuit_of (padding_cell payload) = none
circuit_of (versions_cell link_protocols) = none
circuit_of (netinfo_cell c) = none
circuit_of (vpadding_cell payload) = none
circuit_of (certs_cell certificates unused) = none
circuit_of (auth_challenge_cell methods challenge unused) = none
circuit_of (unimplemented cls) = none

-- `self.unused`
unfoldable pub unused_of : Cell → Bytes
unused_of (relay_cell c) = c.unused
unused_of (destroy_cell circ_id reason reason_int unused) = unused
unused_of (create_fast_cell circ_id key_material unused) = unused
unused_of (created_fast_cell circ_id derivative_key key_material unused) = unused
unused_of (netinfo_cell c) = c.unused
unused_of (certs_cell certificates unused) = unused
unused_of (auth_challenge_cell methods challenge unused) = unused
unused_of (padding_cell payload) = []
unused_of (versions_cell link_protocols) = []
unused_of (vpadding_cell payload) = []
unused_of (unimplemented cls) = []
