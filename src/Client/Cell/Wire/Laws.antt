-- ===== src/Client/Cell/Wire/Laws.antt =====
-- Cells are popped from the wire as they were packed.
use stem.Base.{
  ℕ, zero, suc, ◌≤◌, ◌<◌, List, [], ◌∷◌, ◌++◌, ◌≡◌, refl, ap, subst, arith, Bytes, length,
  replicate, All, inl, inr, none,
}
use stem.Base.{Result, ok, ◌>>=◌, >>=-eq-ok, pair-eq-ok, append_assoc, append-nil, Result-cases}
use stem.Client.Cell.Types.{
  Cell, class_of, circuit_of, unused_of, is_fixed_size, padding_cell, relay_cell, destroy_cell,
  create_fast_cell, created_fast_cell, versions_cell, netinfo_cell, vpadding_cell, certs_cell,
  auth_challenge_cell, unimplemented,
}
use stem.Client.Cell.Frame.{pop_frame}
use stem.Client.Cell.Frame.Laws.{
  fill, pop_frame-pack_cell, pop_frame-shorter, pop_frame-append, fill-zeros,
}
use stem.Client.Cell.Payload.{pack_payload, unpack_payload}
use stem.Client.Cell.Payload.Laws.{Constructed, HasUnused, with_unused, unpack_payload-pack_payload}
use stem.Client.Cell.Wire.{pack, pop, yielded, unpack_loop, unpack}

-- The classes without unused bytes are not padded.
fill-HasUnused :
    (c : Cell) (payload : Bytes)
    → Constructed c
    → pack_payload c ≡ ok payload
    → HasUnused (class_of c) (unused_of c ++ fill (class_of c) (payload ++ unused_of c))
unfolding Constructed HasUnused class_of unused_of pack_payload is_fixed_size
fill-HasUnused (padding_cell p) payload made packed =
    let e : p ≡ payload = cc packed in rw (← e, append-nil, made)
fill-HasUnused (relay_cell c) payload made packed = tt
fill-HasUnused (destroy_cell circ_id reason reason_int unused) payload made packed = tt
fill-HasUnused (create_fast_cell circ_id key_material unused) payload made packed = tt
fill-HasUnused (created_fast_cell circ_id derivative_key key_material unused) payload made packed =
    tt
fill-HasUnused (versions_cell link_protocols) payload made packed = refl
fill-HasUnused (netinfo_cell c) payload made packed = tt
fill-HasUnused (vpadding_cell p) payload made packed = refl
fill-HasUnused (certs_cell certificates unused) payload made packed = tt
fill-HasUnused (auth_challenge_cell methods challenge unused) payload made packed = tt
fill-HasUnused (unimplemented cls) payload made packed = cc packed

-- Two cells that differ in zeros behind the unused bytes.
abbrev pub Padded : Cell → Cell → Type 0
Padded c d = (n : ℕ) × (d ≡ with_unused c (unused_of c ++ replicate n 0))

abbrev pub AllPadded : List Cell → List Cell → Type 0
AllPadded [] [] = Unit {0}
AllPadded [] (d ∷ ds) = ⊥
AllPadded (c ∷ cs) [] = ⊥
AllPadded (c ∷ cs) (d ∷ ds) = Padded c d × AllPadded cs ds

-- `b''.join([c.pack(link_protocol) for c in cells])`
unfoldable pub pack_cells : ℕ → List Cell → Result Bytes
pack_cells version [] = ok []
pack_cells version (c ∷ cs) = do
  packed ← pack c version
  more ← pack_cells version cs
  ok (packed ++ more)

below : (fuel n : ℕ) → n < fuel → (less : ℕ) × (fuel ≡ suc less) × (n ≤ less)
below zero n h = absurd (omega arith)
below (suc less) n h = (less, refl, omega arith)

module _ (urandom : ℕ → Bytes) (version : ℕ) where
  -- A cell that its constructor made is popped as it was packed, whatever follows it, with zeros
  -- behind its unused bytes where the class has a fixed size. The addresses of a NETINFO cell have
  -- the canonical text of their bytes, and the bytes of an IPv6 address do not read as the text of
  -- one.
  pub pop-pack_cell :
      (c : Cell) (bs rest : Bytes)
      → Constructed c
      → pack c version ≡ ok bs
      → (n : ℕ) × (pop urandom (bs ++ rest) version
          ≡ ok (with_unused c (unused_of c ++ replicate n 0), rest))
  unfolding pack pop
  pop-pack_cell c bs rest made h =
      let (payload, packed, framed) = >>=-eq-ok (pack_payload c) _ h in
      let (circ, checked, popped) =
        pop_frame-pack_cell (class_of c) version payload (unused_of c) (circuit_of c) bs rest
          framed in
      let body : Bytes = payload ++ unused_of c in
      let (n, zeros) = fill-zeros (class_of c) body in
      let behind = fill-HasUnused c payload made packed in
      let unpacked =
        unpack_payload-pack_payload urandom c payload (unused_of c ++ fill (class_of c) body) circ
          made behind checked packed in
      let order : body ++ fill (class_of c) body
          ≡ payload ++ (unused_of c ++ fill (class_of c) body) =
        append_assoc payload (unused_of c) _ in
      (n, rw (popped, order, unpacked, zeros))

  pop-shorter :
      (content rest : Bytes) (c : Cell)
      → pop urandom content version ≡ ok (c, rest)
      → length rest < length content
  unfolding pop
  pop-shorter content rest c h =
      let ((frame, c1), p1, h1) = >>=-eq-ok (pop_frame content version) _ h in
      let (d, p2, e) =
        >>=-eq-ok (unpack_payload urandom frame.cls frame.payload frame.circ_id) _ h1 in
      let same : c1 ≡ rest = cc e in
      subst (λ (r : Bytes). length r < length content) same
        (pop_frame-shorter content c1 version frame p1)

  -- The loop of `Cell.unpack` has enough fuel with one for each byte: more changes nothing.
  pub unpack_loop-enough :
      (fuel more : ℕ) (content : Bytes)
      → length content ≤ fuel
      → length content ≤ more
      → unpack_loop urandom more content version ≡ unpack_loop urandom fuel content version
  unfolding unpack_loop
  unpack_loop-enough fuel more [] h k = refl
  unpack_loop-enough zero more (b ∷ content) h k = ground arith
  unpack_loop-enough (suc fuel) zero (b ∷ content) h k = ground arith
  unpack_loop-enough (suc fuel) (suc more) (b ∷ content) h k =
      elim (Result-cases (pop urandom (b ∷ content) version)) [
        | inl ((c, rest), popped) ↦
            let fewer = pop-shorter (b ∷ content) rest c popped in
            rw (unpack_loop, popped)
              (rw (unpack_loop-enough fuel more rest (omega arith) (omega arith)))
        | inr (e, failed) ↦ rw (unpack_loop, failed)
      ]

  unpack_loop_step :
      (fuel : ℕ) (content rest : Bytes) (c : Cell)
      → pop urandom content version ≡ ok (c, rest)
      → unpack_loop urandom (suc fuel) content version
        ≡ yielded c (unpack_loop urandom fuel rest version)
  unfolding unpack_loop
  unpack_loop_step fuel [] rest c popped =
      let none_left = pop-shorter [] rest c popped in ground arith
  unpack_loop_step fuel (b ∷ content) rest c popped = rw (unpack_loop, popped)

  unpack_loop_cons :
      (fuel less : ℕ) (front bs rest : Bytes) (c : Cell) (cs : List Cell)
      → fuel ≡ suc less
      → front ≡ bs
      → pop urandom front version ≡ ok (c, rest)
      → unpack_loop urandom less rest version ≡ (cs, none)
      → unpack_loop urandom fuel bs version ≡ (c ∷ cs, none)
  unpack_loop_cons fuel less front bs rest c cs is_suc e popped unpacked =
      rw (← e, is_suc, unpack_loop_step less front rest c popped, unpacked)

  unpack_loop-pack_cells :
      (fuel : ℕ) (cs : List Cell) (bs : Bytes)
      → length bs ≤ fuel
      → All Constructed cs
      → pack_cells version cs ≡ ok bs
      → (ds : List Cell) × (unpack_loop urandom fuel bs version ≡ (ds, none)) × AllPadded cs ds
  unfolding pack_cells
  unpack_loop-pack_cells fuel [] bs h made packed =
      let e : [] ≡ bs = cc packed in ([], rw (← e) (unfold unpack_loop in refl), tt)
  unpack_loop-pack_cells fuel (c ∷ cs) bs h made packed =
      let (b1, b2, p1, p2, e) =
        pair-eq-ok (pack c version) (pack_cells version cs) (λ p q. p ++ q) packed in
      let (n, popped) = pop-pack_cell c b1 b2 made.0 p1 in
      let d : Cell = with_unused c (unused_of c ++ replicate n 0) in
      let fewer : length b2 < fuel =
        omega (arith, pop-shorter (b1 ++ b2) b2 d popped, ap (λ (x : Bytes). length x) e) in
      let (less, is_suc, room) = below fuel (length b2) fewer in
      let (ds, unpacked, padded) = unpack_loop-pack_cells less cs b2 room made.1 p2 in
      (
        d ∷ ds,
        unpack_loop_cons fuel less (b1 ++ b2) bs b2 d ds is_suc e popped unpacked,
        ((n, refl), padded),
      )

  -- What cells that their constructors made pack to, one behind the other, is unpacked as those
  -- cells, in their order, with zeros behind the unused bytes, and no exception ends them. The
  -- addresses of NETINFO cells have the canonical text of their bytes, and the bytes of an IPv6
  -- address do not read as the text of one.
  pub unpack-pack_cells :
      (cs : List Cell) (bs : Bytes)
      → All Constructed cs
      → pack_cells version cs ≡ ok bs
      → (ds : List Cell) × (unpack urandom bs version ≡ (ds, none)) × AllPadded cs ds
  unfolding unpack
  unpack-pack_cells cs bs made packed =
      unpack_loop-pack_cells (length bs) cs bs (omega arith) made packed

  -- What follows a cell stays behind it.
  pub pop-append_cell :
      (content rest more : Bytes) (c : Cell)
      → pop urandom content version ≡ ok (c, rest)
      → pop urandom (content ++ more) version ≡ ok (c, rest ++ more)
  unfolding pop
  pop-append_cell content rest more c h =
      let ((frame, c1), p1, h1) = >>=-eq-ok (pop_frame content version) _ h in
      let (d, p2, e) =
        >>=-eq-ok (unpack_payload urandom frame.cls frame.payload frame.circ_id) _ h1 in
      let (e1, e2) : (d ≡ c) × (c1 ≡ rest) = (cc e, cc e) in
      rw (pop_frame-append content c1 more version frame p1, p2, e1, e2)
