-- ===== src/Client/Relay/Tests.antt =====
-- A concrete exchange, to which the theorems about client/__init__.py are applied.

use stem.Base.{ℕ, ◌≤◌, List, [], ◌∷◌, ◌++◌, ◌≡◌, refl, Bytes, false, replicate, num, str, ok}
use stem.Client.Datatype.Enums.{get, int_to_enum, enum_to_int}
use stem.Client.Datatype.Size
use stem.Client.Datatype.Size.{from_bytes, to_bytes}
use stem.Client.Datatype.LinkProtocol.{link_protocol}
use stem.Client.Cell.Types.{
  Cell, class_of, circuit_of, unused_of, is_circuit_cell, cell_value, by_value, is_fixed_size,
  destroy_cell, versions_cell,
}
use stem.Client.Cell.Frame.{
  checked_circ_id, size_field, pad, pack_cell, payload_length, read_payload, pop_frame,
}
use stem.Client.Cell.Payload.{pack_payload, unpack_payload, init_destroy, pop_versions}
use stem.Client.Cell.Payload.Laws.{Constructed, with_unused}
use stem.Client.Cell.Wire
use stem.Client.Cell.Wire.{pack}
use stem.Client.Relay.{
  Stream, await_size, cell_size, await_cell, recv, recv_bytes, is_in, common, maximum, negotiate,
  next_circ_id,
}
use stem.Client.Relay.Pieces.{recv-pack_cell}
use stem.Client.Relay.Laws.{contents, In, recv-pop, negotiate-maximum, next_circ_id-fresh}

abbrev urandom : ℕ → Bytes
urandom n = replicate n 7

-- A DESTROY cell of link protocol 4 in three pieces, with two bytes of the next cell.
abbrev in_pieces : Stream
in_pieces = record {
  buffer = 0 ∷ 0 ∷ 0 ∷ [];
  pieces = (5 ∷ 4 ∷ 9 ∷ []) ∷ (replicate 508 0 ++ (0 ∷ 0 ∷ [])) ∷ [];
}

abbrev left_over : Stream
left_over = record { buffer = 0 ∷ 0 ∷ []; pieces = [] }

abbrev destroyed : Cell
destroyed = destroy_cell 5 "FINISHED" (num 9) (replicate 508 0)

recv-in_pieces : recv urandom 4 in_pieces ≡ ok (destroyed, left_over)
unfolding recv await_cell await_size cell_size Wire.pop pop_frame payload_length read_payload
    by_value is_fixed_size link_protocol Size.pop Size.unpack from_bytes unpack_payload init_destroy
    get int_to_enum
recv-in_pieces = refl

recv-pop_example : Wire.pop urandom (contents in_pieces) 4 ≡ ok (destroyed, contents left_over)
recv-pop_example = recv-pop urandom 4 in_pieces left_over destroyed recv-in_pieces

recv_bytes-in_pieces :
    recv_bytes 4 in_pieces ≡ ok (0 ∷ 0 ∷ 0 ∷ 5 ∷ 4 ∷ 9 ∷ replicate 508 0, left_over)
unfolding recv_bytes await_cell await_size cell_size by_value is_fixed_size link_protocol Size.pop
    Size.unpack from_bytes
recv_bytes-in_pieces = refl

destroyed-Constructed : Constructed destroyed
unfolding Constructed get enum_to_int
destroyed-Constructed = (str "FINISHED", refl)

pack-destroyed : pack destroyed 4 ≡ ok (0 ∷ 0 ∷ 0 ∷ 5 ∷ 4 ∷ 9 ∷ replicate 508 0)
unfolding pack pack_payload Size.pack to_bytes pack_cell checked_circ_id size_field pad class_of
    circuit_of unused_of is_circuit_cell is_fixed_size cell_value link_protocol
pack-destroyed = refl

recv-pack_cell_example :
    (n : ℕ) × (t : Stream) × (recv urandom 4 in_pieces
      ≡ ok (with_unused destroyed (unused_of destroyed ++ replicate n 0), t))
    × (recv_bytes 4 in_pieces ≡ ok (0 ∷ 0 ∷ 0 ∷ 5 ∷ 4 ∷ 9 ∷ replicate 508 0, t))
    × (contents t ≡ 0 ∷ 0 ∷ [])
recv-pack_cell_example =
    recv-pack_cell urandom 4 destroyed (0 ∷ 0 ∷ 0 ∷ 5 ∷ 4 ∷ 9 ∷ replicate 508 0) (0 ∷ 0 ∷ [])
      in_pieces destroyed-Constructed (unfold is_fixed_size class_of in refl) pack-destroyed refl

abbrev reply : Bytes
reply = 0 ∷ 0 ∷ 7 ∷ 0 ∷ 6 ∷ 0 ∷ 3 ∷ 0 ∷ 4 ∷ 0 ∷ 6 ∷ []

negotiate-reply : negotiate urandom (3 ∷ 4 ∷ 5 ∷ []) reply ≡ ok 4
unfolding negotiate common is_in maximum Wire.pop pop_frame payload_length read_payload by_value
    is_fixed_size link_protocol Size.pop Size.unpack from_bytes unpack_payload pop_versions
negotiate-reply = refl

negotiate-maximum_example :
    (theirs : List ℕ) × (rest : Bytes) × (Wire.pop urandom reply 2
      ≡ ok (versions_cell theirs, rest))
    × In 4 (3 ∷ 4 ∷ 5 ∷ [])
    × In 4 theirs
    × ((v : ℕ) → In v (3 ∷ 4 ∷ 5 ∷ []) → In v theirs → v ≤ 4)
negotiate-maximum_example = negotiate-maximum urandom (3 ∷ 4 ∷ 5 ∷ []) reply 4 negotiate-reply

next_circ_id-fresh_example : is_in (next_circ_id 1 (1 ∷ 5 ∷ 2 ∷ [])) (1 ∷ 5 ∷ 2 ∷ []) ≡ false
next_circ_id-fresh_example = next_circ_id-fresh 1 (1 ∷ 5 ∷ 2 ∷ [])
