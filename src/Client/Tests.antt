-- ===== src/Client/Tests.antt =====
-- Concrete cells and fields, to which the theorems about client/ are applied.

use stem.Base.{
  ℕ, ◌+◌, ◌-◌, ◌%◌, ◌==◌, if◌then◌else◌, map, List, [], ◌∷◌, ◌++◌, ◌≡◌, ◌≢◌, stuck, refl, arith,
  Bytes, length, drop, replicate, All, none, some, num, str, ok, err,
}
use stem.Client.Datatype.Enums.{int_to_enum, enum_to_int, get}
use stem.Client.Datatype.Size
use stem.Client.Datatype.Size.{char, short, long, to_bytes, from_bytes}
use stem.Client.Datatype.LinkProtocol.{link_protocol}
use stem.Client.Datatype.Field.{pack_all}
use stem.Client.Cell.Types.{
  Cell, RelayCell, class_of, circuit_of, unused_of, is_circuit_cell, is_fixed_size, cell_value,
  destroy, versions_cell, destroy_cell,
}
use stem.Client.Cell.Frame.{checked_circ_id, size_field, pad, pack_cell}
use stem.Client.Cell.RelayCell
use stem.Client.Cell.RelayCell.{
  Crypto, of_int, of_bytes, digest_int, check_stream_id, is_one_of, encrypt, decrypt,
}
use stem.Client.Cell.RelayCell.Laws.{IsRelayCell, init-IsRelayCell, unpack-pack_payload}
use stem.Client.Cell.RelayCell.Encryption.{decrypt-encrypt}
use stem.Client.Cell.Frame.Laws.{length-pack_cell}
use stem.Client.Cell.Payload.Loops.{pop_versions-enough}
use stem.Client.Cell.Payload.{pop_versions, pack_payload}
use stem.Client.Cell.Payload.Laws.{Constructed, with_unused}
use stem.Client.Cell.Wire.{pack, pop, unpack, unpack_loop}
use stem.Client.Cell.Wire.Laws.{
  pop-pack_cell, pack_cells, AllPadded, unpack-pack_cells, unpack_loop-enough,
}

abbrev urandom : ℕ → Bytes
urandom n = replicate n 7

abbrev versions_example : Cell
versions_example = versions_cell (3 ∷ 4 ∷ 5 ∷ [])

abbrev versions_bytes : Bytes
versions_bytes = 0 ∷ 0 ∷ 7 ∷ 0 ∷ 6 ∷ 0 ∷ 3 ∷ 0 ∷ 4 ∷ 0 ∷ 5 ∷ []

abbrev destroy_example : Cell
destroy_example = destroy_cell 5 "FINISHED" (num 9) []

abbrev destroy_bytes : Bytes
destroy_bytes = 0 ∷ 0 ∷ 0 ∷ 5 ∷ 4 ∷ 9 ∷ replicate 508 0

pack-versions : pack versions_example 2 ≡ ok versions_bytes
unfolding pack pack_payload pack_all Size.pack to_bytes pack_cell checked_circ_id size_field pad
    class_of circuit_of unused_of is_circuit_cell is_fixed_size cell_value link_protocol
pack-versions = refl

pack-destroy : pack destroy_example 4 ≡ ok destroy_bytes
unfolding pack pack_payload pack_all Size.pack to_bytes pack_cell checked_circ_id size_field pad
    class_of circuit_of unused_of is_circuit_cell is_fixed_size cell_value link_protocol
pack-destroy = refl

destroy-framed : pack_cell destroy 4 (9 ∷ []) [] (some 5) ≡ ok destroy_bytes
unfolding Size.pack to_bytes pack_cell checked_circ_id size_field pad is_circuit_cell is_fixed_size
    cell_value link_protocol
destroy-framed = refl

destroy-Constructed : Constructed destroy_example
unfolding Constructed get enum_to_int
destroy-Constructed = (str "FINISHED", refl)

pop-pack_cell_example :
    (n : ℕ) × (pop urandom (destroy_bytes ++ (1 ∷ 2 ∷ [])) 4
      ≡ ok (with_unused destroy_example (unused_of destroy_example ++ replicate n 0), 1 ∷ 2 ∷ []))
pop-pack_cell_example =
    pop-pack_cell urandom 4 destroy_example destroy_bytes (1 ∷ 2 ∷ []) destroy-Constructed
      pack-destroy

cells_Constructed : All Constructed (versions_example ∷ destroy_example ∷ [])
unfolding Constructed get enum_to_int
cells_Constructed = (tt, ((str "FINISHED", refl), tt))

abbrev cells_bytes : Bytes
cells_bytes = (0 ∷ 0 ∷ 0 ∷ 0 ∷ 7 ∷ 0 ∷ 6 ∷ 0 ∷ 3 ∷ 0 ∷ 4 ∷ 0 ∷ 5 ∷ []) ++ destroy_bytes

pack_cells-cells : pack_cells 4 (versions_example ∷ destroy_example ∷ []) ≡ ok cells_bytes
unfolding pack_cells pack pack_payload pack_all Size.pack to_bytes pack_cell checked_circ_id
    size_field pad class_of circuit_of unused_of is_circuit_cell is_fixed_size cell_value
    link_protocol
pack_cells-cells = refl

unpack-pack_cells_example :
    (ds : List Cell) × (unpack urandom cells_bytes 4 ≡ (ds, none))
    × AllPadded (versions_example ∷ destroy_example ∷ []) ds
unpack-pack_cells_example =
    unpack-pack_cells urandom 4 (versions_example ∷ destroy_example ∷ []) cells_bytes
      cells_Constructed pack_cells-cells

unpack_loop-enough_example :
    unpack_loop urandom 600 destroy_bytes 4 ≡ unpack_loop urandom 514 destroy_bytes 4
unpack_loop-enough_example =
    unpack_loop-enough urandom 4 514 600 destroy_bytes (omega arith) (omega arith)

length-pack_cell_example : length destroy_bytes ≡ (link_protocol 4).fixed_cell_length
length-pack_cell_example =
    length-pack_cell destroy 4 (9 ∷ []) [] (some 5) destroy_bytes (unfold is_fixed_size in refl)
      destroy-framed

abbrev begin_cell : RelayCell
begin_cell = record {
  circ_id = 5;
  command = "RELAY_DATA";
  command_int = num 2;
  content = 104 ∷ 105 ∷ [];
  digest = 0x01020304;
  stream_id = 1;
  recognized = 0;
  unused = [];
}

abbrev begin_payload : Bytes
begin_payload = 2 ∷ 0 ∷ 0 ∷ 0 ∷ 1 ∷ 1 ∷ 2 ∷ 3 ∷ 4 ∷ 0 ∷ 2 ∷ 104 ∷ 105 ∷ []

begin-init : RelayCell.init 5 (num 2) (104 ∷ 105 ∷ []) (of_int 0x01020304) 1 0 [] ≡ ok begin_cell
unfolding RelayCell.init digest_int check_stream_id is_one_of get int_to_enum
begin-init = refl

begin-packed : RelayCell.pack_payload begin_cell ≡ ok begin_payload
unfolding RelayCell.pack_payload Size.pack to_bytes
begin-packed = refl

init-IsRelayCell_example : IsRelayCell begin_cell
init-IsRelayCell_example =
    init-IsRelayCell 5 (num 2) (104 ∷ 105 ∷ []) (of_int 0x01020304) 1 0 [] begin_cell begin-init

unpack-pack_payload_example :
    RelayCell.unpack (begin_payload ++ (0 ∷ 0 ∷ [])) 9
    ≡ ok (record begin_cell { circ_id = 9; unused = 0 ∷ 0 ∷ [] })
unpack-pack_payload_example =
    unpack-pack_payload begin_cell begin_payload (0 ∷ 0 ∷ []) 9
      (init-IsRelayCell 5 (num 2) (104 ∷ 105 ∷ []) (of_int 0x01020304) 1 0 [] begin_cell begin-init)
      begin-packed

-- A cipher that flips the last bit of each byte, and a hash that keeps what it was given.
abbrev flip : ℕ → ℕ
flip b = if b % 2 == 0 then b + 1 else b - 1

flip-flip : (b : ℕ) → flip (flip b) ≡ b
flip-flip b = ground arith

map-flip : (p : Bytes) → map flip (map flip p) ≡ p
map-flip [] = refl
map-flip (b ∷ p) = rw (flip-flip b, map-flip p)

length-flip : (p : Bytes) → length (map flip p) ≡ length p
length-flip [] = refl
length-flip (b ∷ p) = rw (length-flip p)

abbrev flipping : Crypto
flipping = record {
  Key = Unit {0};
  Hash = Bytes;
  update = λ key p. (map flip p, tt);
  hash_update = λ h p. h ++ p;
  hash_digest = λ h. 1 ∷ 2 ∷ 3 ∷ 4 ∷ replicate 16 (length h);
}

abbrev hashed_before : Bytes
hashed_before = 2 ∷ 0 ∷ 0 ∷ 0 ∷ 1 ∷ 0 ∷ 0 ∷ 0 ∷ 0 ∷ 0 ∷ 2 ∷ 104 ∷ 105 ∷ replicate 496 0

abbrev encrypted_bytes : Bytes
encrypted_bytes = 0 ∷ 5 ∷ 3 ∷ map flip (begin_payload ++ replicate 496 0)

encrypt-begin :
    encrypt flipping (record begin_cell { digest = 0 }) 2 tt []
    ≡ ok (encrypted_bytes, tt, hashed_before)
unfolding encrypt RelayCell.pack RelayCell.pack_payload Size.pack Size.unpack to_bytes from_bytes
    RelayCell.init digest_int check_stream_id is_one_of get enum_to_int pack_cell checked_circ_id
    size_field pad is_circuit_cell is_fixed_size cell_value link_protocol
encrypt-begin = refl

decrypt-encrypt_example :
    (cell : RelayCell) × (n : ℕ) × (key : Unit {0}) × (packed : Bytes) × (RelayCell.pack
        (record begin_cell { digest = 0 })
        2
      ≡ ok packed)
    × (hashed_before ≡ [] ++ drop 3 packed)
    × (RelayCell.init 5
          (str "RELAY_DATA")
          (104 ∷ 105 ∷ [])
          (of_bytes (flipping.hash_digest hashed_before))
          1
          0
          []
        ≡ ok cell)
    × (decrypt flipping 2 encrypted_bytes tt (9 ∷ [])
        ≡ ok (record cell { unused = cell.unused ++ replicate n 0 }, key, 9 ∷ []))
unfolding link_protocol
decrypt-encrypt_example =
    decrypt-encrypt flipping tt tt 2 map-flip length-flip (record begin_cell { digest = 0 })
      encrypted_bytes [] hashed_before (9 ∷ []) tt encrypt-begin

pop_versions-enough_example : pop_versions 3 (0 ∷ 4 ∷ 5 ∷ []) ≢ err stuck
pop_versions-enough_example = pop_versions-enough 3 (0 ∷ 4 ∷ 5 ∷ []) (omega arith)
