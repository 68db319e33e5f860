-- ===== src/Client/Cell/Wire.antt =====
-- `cell.pack`, `Cell.pop` and `Cell.unpack` of client/cell.py, for the cells of every class.
pub mod Laws
use stem.Base.{ℕ, zero, suc, List, [], ◌∷◌, ◌++◌, Bytes, length, Option, none, some}
use stem.Base.{Error, Result, ok, err, stuck, ◌>>=◌}
use stem.Client.Cell.Types.{
  class_of, circuit_of, unused_of, Cell, CellType, RelayCell, NetinfoCell, padding, create, created,
  relay, destroy, create_fast, created_fast, versions, netinfo, relay_early, create2, created2,
  padding_negotiate, vpadding, certs, auth_challenge, authenticate, authorize, padding_cell,
  relay_cell, destroy_cell, create_fast_cell, created_fast_cell, versions_cell, netinfo_cell,
  vpadding_cell, certs_cell, auth_challenge_cell, unimplemented,
}
use stem.Client.Cell.Frame.{Frame, pack_cell, pop_frame}
use stem.Client.Cell.Payload.{pack_payload, unpack_payload}

-- `yield cell`, and then the rest of the generator.
abbrev pub yielded : Cell → List Cell × Option Error → List Cell × Option Error
yielded c (cells, raised) = (c ∷ cells, raised)

unfoldable pub pack : Cell → ℕ → Result Bytes
pack c version = do
  payload ← pack_payload c
  pack_cell (class_of c) version payload (unused_of c) (circuit_of c)

module _ (urandom : ℕ → Bytes) where
  unfoldable pub pop : Bytes → ℕ → Result (Cell × Bytes)
  pop content version = do
    (frame, content) ← pop_frame content version
    c ← unpack_payload urandom frame.cls frame.payload frame.circ_id
    ok (c, content)

  -- The cells that the generator `Cell.unpack` yields, and the exception that ends them, if there is
  -- one. A cell takes more than one byte, so that fuel for each byte is enough.
  unfoldable pub unpack_loop : ℕ → Bytes → ℕ → List Cell × Option Error
  unpack_loop fuel [] version = ([], none)
  unpack_loop zero (b ∷ content) version = ([], some stuck)
  unpack_loop (suc fuel) (b ∷ content) version = elim (pop (b ∷ content) version) [
    | ok (c, content) ↦ yielded c (unpack_loop fuel content version)
    | err raised ↦ ([], some raised)
  ]

  unfoldable pub unpack : Bytes → ℕ → List Cell × Option Error
  unpack content version = unpack_loop (length content) content version
