-- ===== src/Client/Cell/Payload/Laws.antt =====
-- Each class unpacks the payload that it packed.

use stem.Base.{
  ℕ, suc, ◌+◌, ◌*◌, ◌≤◌, List, [], ◌∷◌, ◌++◌, ◌≡◌, refl, sym, ap, ◌∙◌, arith, Bytes, true, false,
  ◌==◌, ltb, length, All, some, Value, num,
}
use stem.Base.{
  ok, >>=-eq-ok, pair-eq-ok, append_assoc, append-nil, length-append, take-append_at,
  drop-append_at,
}
use stem.Client.Datatype.Enums.{close_reason, get}
use stem.Client.Datatype.Enums.Laws.{get-get, all_Unique}
use stem.Client.Datatype.Size
use stem.Client.Datatype.Size.{char, short, long}
use stem.Client.Datatype.Size.Laws.{pop-pack, length-pack, pack_num}
use stem.Client.Datatype.Field.{pack_all, pop_many-pack_all}
use stem.Client.Datatype.Address
use stem.Client.Datatype.Address.{Address}
use stem.Client.Datatype.Address.Laws as Addresses
use stem.Client.Datatype.Certificate.Laws as Certificates
use stem.Client.Cell.Types.{
  Cell, CellType, NetinfoCell, class_of, circuit_of, is_circuit_cell, padding, create, created,
  relay, destroy, create_fast, created_fast, versions, netinfo, relay_early, create2, created2,
  padding_negotiate, vpadding, certs, auth_challenge, authenticate, authorize, padding_cell,
  relay_cell, destroy_cell, create_fast_cell, created_fast_cell, versions_cell, netinfo_cell,
  vpadding_cell, certs_cell, auth_challenge_cell, unimplemented,
}
use stem.Client.Cell.Frame.{checked_circ_id}
use stem.Client.Cell.RelayCell.Laws.{IsRelayCell, unpack-pack_payload}
use stem.Client.Datatype.LinkProtocol.{fixed_payload_len}
use stem.Client.Cell.Payload.Loops.{
  All-shorts, length-pack_shorts, pop_versions-pack_all, pop_certs-pack_all,
}
use stem.Client.Cell.Payload.{
  hash_len, auth_challenge_size, shorts, pack_payload, init_destroy, sized_or_random, init_padding,
  init_create_fast, init_created_fast, init_vpadding, init_auth_challenge, unpack_create_fast,
  unpack_created_fast, unpack_netinfo, unpack_auth_challenge, unpack_payload,
}

-- What a cell fulfils that its class's constructor made. The addresses of a NETINFO cell have the
-- canonical text of their bytes, and the bytes of an IPv6 address do not read as the text of one.
unfoldable pub Constructed : Cell → Type 0
Constructed (padding_cell payload) = length payload ≡ fixed_payload_len
Constructed (relay_cell c) = IsRelayCell c
Constructed (destroy_cell circ_id reason reason_int unused) =
    (v : Value) × (get close_reason v ≡ ok (reason, reason_int))
Constructed (create_fast_cell circ_id key_material unused) = length key_material ≡ hash_len
Constructed (created_fast_cell circ_id derivative_key key_material unused) =
    (length derivative_key ≡ hash_len) × (length key_material ≡ hash_len)
Constructed (versions_cell link_protocols) = Unit {0}
Constructed (netinfo_cell c) =
    Addresses.IsAddress c.receiver_address × All Addresses.IsAddress c.sender_addresses
Constructed (vpadding_cell payload) = Unit {0}
Constructed (certs_cell certificates unused) = All Certificates.Constructed certificates
Constructed (auth_challenge_cell methods challenge unused) = length challenge ≡ auth_challenge_size
Constructed (unimplemented cls) = Unit {0}

-- The cell with other unused bytes.
unfoldable pub with_unused : Cell → Bytes → Cell
with_unused (padding_cell payload) extra = padding_cell payload
with_unused (relay_cell c) extra = relay_cell (record c { unused = extra })
with_unused (destroy_cell circ_id reason reason_int unused) extra =
    destroy_cell circ_id reason reason_int extra
with_unused (create_fast_cell circ_id key_material unused) extra =
    create_fast_cell circ_id key_material extra
with_unused (created_fast_cell circ_id derivative_key key_material unused) extra =
    created_fast_cell circ_id derivative_key key_material extra
with_unused (versions_cell link_protocols) extra = versions_cell link_protocols
with_unused (netinfo_cell c) extra = netinfo_cell (record c { unused = extra })
with_unused (vpadding_cell payload) extra = vpadding_cell payload
with_unused (certs_cell certificates unused) extra = certs_cell certificates extra
with_unused (auth_challenge_cell methods challenge unused) extra =
    auth_challenge_cell methods challenge extra
with_unused (unimplemented cls) extra = unimplemented cls

-- Whether the class has unused bytes, so that any may follow its payload.
unfoldable pub HasUnused : CellType → Bytes → Type 0
HasUnused padding extra = extra ≡ []
HasUnused versions extra = extra ≡ []
HasUnused vpadding extra = extra ≡ []
HasUnused relay extra = Unit {0}
HasUnused destroy extra = Unit {0}
HasUnused create_fast extra = Unit {0}
HasUnused created_fast extra = Unit {0}
HasUnused netinfo extra = Unit {0}
HasUnused certs extra = Unit {0}
HasUnused auth_challenge extra = Unit {0}
HasUnused create extra = Unit {0}
HasUnused created extra = Unit {0}
HasUnused relay_early extra = Unit {0}
HasUnused create2 extra = Unit {0}
HasUnused created2 extra = Unit {0}
HasUnused padding_negotiate extra = Unit {0}
HasUnused authenticate extra = Unit {0}
HasUnused authorize extra = Unit {0}

module _ (urandom : ℕ → Bytes) where
  sized_or_random-sized :
      (n : ℕ) (bs : Bytes) → length bs ≡ suc n → sized_or_random urandom (suc n) (some bs) ≡ ok bs
  unfolding sized_or_random
  sized_or_random-sized n [] len = ground arith
  sized_or_random-sized n (b ∷ bs) len = ground arith

  unpack_create_fast-append :
      (circ_id : ℕ) (key extra : Bytes)
      → length key ≡ hash_len
      → unpack_create_fast urandom (key ++ extra) circ_id ≡ ok (create_fast_cell circ_id key extra)
  unfolding unpack_create_fast init_create_fast
  unpack_create_fast-append circ_id key extra len =
      let exact : (length key == hash_len) ≡ true = ground arith in
      rw (
        take-append_at hash_len key extra len,
        drop-append_at hash_len key extra len,
        exact,
        sized_or_random-sized 19 key len,
      )

  unpack_created_fast-append :
      (circ_id : ℕ) (derivative key extra : Bytes)
      → length derivative ≡ hash_len
      → length key ≡ hash_len
      → unpack_created_fast urandom ((key ++ derivative) ++ extra) circ_id
        ≡ ok (created_fast_cell circ_id derivative key extra)
  unfolding unpack_created_fast init_created_fast
  unpack_created_fast-append circ_id derivative key extra len1 len2 =
      let exact : (length derivative == hash_len) ≡ true = ground arith in
      let room : ltb (length ((key ++ derivative) ++ extra)) (hash_len * 2) ≡ false =
        ground (arith, length-append (key ++ derivative) extra, length-append key derivative) in
      rw (
        room,
        append_assoc key derivative extra,
        take-append_at hash_len key (derivative ++ extra) len2,
        drop-append_at hash_len key (derivative ++ extra) len2,
        take-append_at hash_len derivative extra len1,
        drop-append_at hash_len derivative extra len1,
        sized_or_random-sized 19 key len2,
        exact,
      )

  unpack_netinfo-append :
      (c : NetinfoCell) (payload extra : Bytes)
      → Constructed (netinfo_cell c)
      → pack_payload (netinfo_cell c) ≡ ok payload
      → unpack_netinfo (payload ++ extra) ≡ ok (netinfo_cell (record c { unused = extra }))
  unfolding unpack_netinfo pack_payload Constructed
  unpack_netinfo-append c payload extra made packed =
      let (b1, p1, h1) = >>=-eq-ok (Size.pack long (num c.timestamp)) _ packed in
      let (b2, p2, h2) = >>=-eq-ok (Address.pack c.receiver_address) _ h1 in
      let (b3, b4, p3, p4, e) =
        pair-eq-ok (Size.pack char (num (length c.sender_addresses)))
          (pack_all Addresses.field c.sender_addresses) (λ p q. b1 ++ (b2 ++ (p ++ q))) h2 in
      let order : payload ++ extra ≡ b1 ++ (b2 ++ (b3 ++ (b4 ++ extra))) =
        ap (λ p. p ++ extra) (sym e) ∙ simp append_assoc in
      rw
        (
          order,
          pop-pack long c.timestamp b1 _ p1,
          Addresses.pop-pack c.receiver_address b2 (b3 ++ (b4 ++ extra))
              (Addresses.IsAddress-OnWire c.receiver_address made.0) p2,
          pop-pack char (length c.sender_addresses) b3 _ p3,
        )
        (rw (
          pop_many-pack_all Addresses.field c.sender_addresses b4 extra
            (Addresses.All-OnWire c.sender_addresses made.1) p4))

  unpack_auth_challenge-append :
      (methods : List ℕ) (challenge unused payload extra : Bytes)
      → length challenge ≡ auth_challenge_size
      → pack_payload (auth_challenge_cell methods challenge unused) ≡ ok payload
      → unpack_auth_challenge urandom (payload ++ extra)
        ≡ ok (auth_challenge_cell methods challenge extra)
  unfolding unpack_auth_challenge pack_payload init_auth_challenge
  unpack_auth_challenge-append methods challenge unused payload extra len packed =
      let (b1, b2, p1, p2, e) =
        pair-eq-ok (Size.pack short (num (length methods))) (pack_all shorts methods)
          (λ p q. challenge ++ (p ++ q)) packed in
      let order : payload ++ extra ≡ challenge ++ (b1 ++ (b2 ++ extra)) =
        ap (λ p. p ++ extra) (sym e) ∙ simp append_assoc in
      let len1 = length-pack short (length methods) b1 p1 in
      let len2 = length-pack_shorts methods b2 p2 in
      let room : ltb (length (challenge ++ (b1 ++ (b2 ++ extra))))
            (auth_challenge_size + short.size)
          ≡ false =
        ground (
          arith,
          len1,
          len,
          length-append challenge (b1 ++ (b2 ++ extra)),
          length-append b1 (b2 ++ extra),
        ) in
      let room2 : ltb (length (b2 ++ extra)) (length methods * short.size) ≡ false =
        ground (arith, len2, length-append b2 extra) in
      rw (
        order,
        room,
        take-append_at auth_challenge_size challenge (b1 ++ (b2 ++ extra)) len,
        drop-append_at auth_challenge_size challenge (b1 ++ (b2 ++ extra)) len,
        pop-pack short (length methods) b1 _ p1,
        room2,
        pop_many-pack_all shorts methods b2 extra (All-shorts methods) p2,
        sized_or_random-sized 31 challenge len,
      )

  -- A payload is unpacked as it was packed, with what stands behind it as the unused bytes.
  pub unpack_payload-pack_payload :
      (c : Cell) (payload extra : Bytes) (circ : ℕ)
      → Constructed c
      → HasUnused (class_of c) extra
      → checked_circ_id (class_of c) (circuit_of c) ≡ ok circ
      → pack_payload c ≡ ok payload
      → unpack_payload urandom (class_of c) (payload ++ extra) circ ≡ ok (with_unused c extra)
  unfolding unpack_payload pack_payload Constructed HasUnused with_unused class_of circuit_of
      checked_circ_id is_circuit_cell
  unpack_payload-pack_payload (padding_cell p) payload extra circ made no_extra checked packed =
      let e : payload ++ extra ≡ p = rw (no_extra, append-nil) (cc packed) in
      rw e (unfold init_padding in rw (sized_or_random-sized 508 p made))
  unpack_payload-pack_payload (relay_cell c) payload extra circ made u checked packed =
      let e : circ ≡ c.circ_id = ground arith in
      rw (unpack-pack_payload c payload extra circ made packed, e)
  unpack_payload-pack_payload (destroy_cell circ_id reason reason_int unused) payload extra circ
        (v, known) u checked packed =
      let e : circ ≡ circ_id = ground arith in
      let (n, is_num) = pack_num char reason_int payload packed in
      let known_num : get close_reason v ≡ ok (reason, num n) = rw is_num at known in
      rw (pop-pack char n payload extra (rw is_num at packed), e, is_num)
        (unfold init_destroy in rw (get-get close_reason v reason n all_Unique.3 known_num))
  unpack_payload-pack_payload (create_fast_cell circ_id key_material unused) payload extra circ made
        u checked packed =
      let e : circ ≡ circ_id = ground arith in
      let p : payload ≡ key_material = cc packed in
      rw (p, e, unpack_create_fast-append circ_id key_material extra made)
  unpack_payload-pack_payload (created_fast_cell circ_id derivative_key key_material unused) payload
        extra circ made u checked packed =
      let e : circ ≡ circ_id = ground arith in
      let p : payload ≡ key_material ++ derivative_key = cc packed in
      rw (p, e, unpack_created_fast-append circ_id derivative_key key_material extra made.0 made.1)
  unpack_payload-pack_payload (versions_cell link_protocols) payload extra circ made no_extra
        checked packed =
      let fuel : length link_protocols ≤ length payload =
        omega (arith, length-pack_shorts link_protocols payload packed) in
      rw (
        no_extra,
        append-nil,
        pop_versions-pack_all (length payload) link_protocols payload fuel packed,
      )
  unpack_payload-pack_payload (netinfo_cell c) payload extra circ made u checked packed =
      unpack_netinfo-append c payload extra made packed
  unpack_payload-pack_payload (vpadding_cell p) payload extra circ made no_extra checked packed =
      let e : payload ++ extra ≡ p = rw (no_extra, append-nil) (cc packed) in
      rw e (unfold init_vpadding in refl)
  unpack_payload-pack_payload (certs_cell certificates unused) payload extra circ made u checked
        packed =
      let (b1, b2, p1, p2, e) =
        pair-eq-ok (Size.pack char (num (length certificates)))
          (pack_all Certificates.field certificates) (λ p q. p ++ q) packed in
      rw (← e, append_assoc, pop-pack char (length certificates) b1 (b2 ++ extra) p1)
        (rw (pop_certs-pack_all certificates b2 extra made p2))
  unpack_payload-pack_payload (auth_challenge_cell methods challenge unused) payload extra circ made
        u checked packed =
      unpack_auth_challenge-append methods challenge unused payload extra made packed
  unpack_payload-pack_payload (unimplemented cls) payload extra circ made u checked packed =
      cc packed
