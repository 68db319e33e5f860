-- ===== src/Client/Cell/RelayCell/Encryption.antt =====
-- What a hop decrypts is what was encrypted for it.
use stem.Base.{
  ℕ, ◌+◌, ◌++◌, ◌≡◌, refl, sym, ap, subst, ◌∙◌, arith, Bytes, true, ◌==◌, length, take, drop,
  replicate, some, num, str,
}
use stem.Base.{Result, ok, >>=-eq-ok, append_assoc, length-append, take-append_at, drop-append_at}
use stem.Client.Datatype.Size
use stem.Client.Datatype.Size.{char, short, long, split}
use stem.Client.Datatype.Size.Laws.{pop-pack}
use stem.Client.Datatype.LinkProtocol.{link_protocol}
use stem.Client.Cell.Types.{RelayCell, relay, cell_value, is_fixed_size, is_circuit_cell}
use stem.Client.Cell.Frame.{checked_circ_id}
use stem.Client.Cell.Frame.Laws.{fill, fill-zeros, pack_cell-shape, length-pack_cell}
use stem.Client.Cell.RelayCell.{
  Crypto, Digest, of_bytes, init, pack_payload, pack, unpack, encrypt, decrypt,
}
use stem.Client.Cell.RelayCell.Laws.{IsRelayCell, init-IsRelayCell, unpack-pack_payload}

circ_checked : (circ n : ℕ) → checked_circ_id relay (some circ) ≡ ok n → n ≡ circ
unfolding checked_circ_id is_circuit_cell
circ_checked circ n h = ground arith

sent_and_hash {ℓ κ} :
    {A : Type ℓ} {B : Type κ} (x y : Bytes) (k m : A) (g h : B)
    → ◌≡◌ {A = Result (Bytes × A × B)} (ok (x, k, g)) (ok (y, m, h))
    → (x ≡ y) × (g ≡ h)
sent_and_hash x y k m g h e = (cc e, cc e)

module _ (crypto : Crypto) (enc_key dec_key : crypto.Key) (version : ℕ)
    -- Documented of a stream cipher's two contexts: one undoes the other, and no byte is added.
    (inverse : (p : Bytes) → (crypto.update dec_key (crypto.update enc_key p).0).0 ≡ p)
    (same_length : (p : Bytes) → length (crypto.update enc_key p).0 ≡ length p) where
  decrypt-split :
      (circ : ℕ) (b1 b2 e p : Bytes) (c : RelayCell) (hash : crypto.Hash)
      → length ((b1 ++ b2) ++ e) ≡ (link_protocol version).fixed_cell_length
      → Size.pack (link_protocol version).circ_id_size (num circ) ≡ ok b1
      → Size.pack char (num (cell_value relay)) ≡ ok b2
      → (crypto.update dec_key e).0 ≡ p
      → unpack p circ ≡ ok c
      → decrypt crypto version ((b1 ++ b2) ++ e) dec_key hash
        ≡ ok (c, (crypto.update dec_key e).1, hash)
  unfolding decrypt
  decrypt-split circ b1 b2 e p c hash total p1 p2 plain unpacked =
      let exact : (length ((b1 ++ b2) ++ e) == (link_protocol version).fixed_cell_length) ≡ true =
        ground (arith, total) in
      let is_relay : (cell_value relay == cell_value relay) ≡ true = ground arith in
      rw (
        exact,
        append_assoc b1 b2 e,
        pop-pack (link_protocol version).circ_id_size circ b1 (b2 ++ e) p1,
        pop-pack char (cell_value relay) b2 e p2,
        is_relay,
        plain,
        unpacked,
      )

  -- The payload of a packed cell is encrypted behind its header, and decrypted to the cell.
  decrypt-packed :
      (c : RelayCell) (bs : Bytes) (hash : crypto.Hash)
      → IsRelayCell c
      → pack c version ≡ ok bs
      → (n : ℕ) × (key : crypto.Key) × (decrypt crypto version
            (take ((link_protocol version).circ_id_size.size + 1) bs
              ++ (crypto.update enc_key
                  (drop ((link_protocol version).circ_id_size.size + 1) bs)).0)
            dec_key
            hash
          ≡ ok (record c { unused = c.unused ++ replicate n 0 }, key, hash))
  unfolding pack
  decrypt-packed c bs hash valid h =
      let (payload, packed, framed) = >>=-eq-ok (pack_payload c) _ h in
      let fixed : is_fixed_size relay ≡ true = unfold is_fixed_size in refl in
      let (circ, b1, b2, checked, p1, p2, whole, header) =
        pack_cell-shape relay version payload c.unused (some c.circ_id) bs fixed framed in
      let total =
        length-pack_cell relay version payload c.unused (some c.circ_id) bs fixed framed in
      let (n, zeros) = fill-zeros relay (payload ++ c.unused) in
      let plain : Bytes = (payload ++ c.unused) ++ fill relay (payload ++ c.unused) in
      let e : Bytes = (crypto.update enc_key plain).0 in
      let header_size : ℕ = (link_protocol version).circ_id_size.size + 1 in
      let front : take header_size bs ≡ b1 ++ b2 =
        ap (λ x. take header_size x) whole ∙ take-append_at header_size (b1 ++ b2) plain header in
      let back : drop header_size bs ≡ plain =
        ap (λ x. drop header_size x) whole ∙ drop-append_at header_size (b1 ++ b2) plain header in
      let whole_length : length bs ≡ length (b1 ++ b2) + length plain =
        ap (λ (x : Bytes). length x) whole ∙ length-append (b1 ++ b2) plain in
      let sent_length : length ((b1 ++ b2) ++ e) ≡ (link_protocol version).fixed_cell_length =
        length-append (b1 ++ b2) e
        ∙ ap (λ l. length (b1 ++ b2) + l) (same_length plain)
        ∙ sym whole_length
        ∙ total in
      let order : plain ≡ payload ++ (c.unused ++ replicate n 0) =
        append_assoc payload c.unused _ ∙ ap (λ z. payload ++ (c.unused ++ z)) zeros in
      let same_circ = circ_checked c.circ_id circ checked in
      let unpacked : unpack plain circ ≡ ok (record c { unused = c.unused ++ replicate n 0 }) =
        ap (λ x. unpack x circ) order
        ∙ unpack-pack_payload c payload (c.unused ++ replicate n 0) circ valid packed
        ∙ ap (λ i. ok (record c { circ_id = i; unused = c.unused ++ replicate n 0 })) same_circ in
      (
        n,
        (crypto.update dec_key e).1,
        ap (λ x. decrypt crypto version x dec_key hash)
              (ap (λ x. x ++ (crypto.update enc_key (drop header_size bs)).0) front
                ∙ ap (λ x. (b1 ++ b2) ++ (crypto.update enc_key x).0) back)
            ∙ decrypt-split circ b1 b2 e plain (record c { unused = c.unused ++ replicate n 0 })
                hash sent_length p1 p2 (inverse plain) unpacked,
      )

  -- For two cipher contexts that undo each other and keep the length: what is encrypted for a hop
  -- without an error is decrypted by it as the cell that was given, with the digest of
  -- the running hash, and zeros behind the unused bytes. The running hash takes up the payload that
  -- was packed before.
  pub decrypt-encrypt :
      (c : RelayCell) (bs : Bytes) (hash new_hash receiver_hash : crypto.Hash)
      (new_key : crypto.Key)
      → encrypt crypto c version enc_key hash ≡ ok (bs, new_key, new_hash)
      → (cell : RelayCell) × (n : ℕ) × (key : crypto.Key) × (packed : Bytes) × (pack c version
          ≡ ok packed)
        × (new_hash
            ≡ crypto.hash_update hash (drop ((link_protocol version).circ_id_size.size + 1) packed))
        × (init c.circ_id
              (str c.command)
              c.content
              (of_bytes (crypto.hash_digest new_hash))
              c.stream_id
              c.recognized
              c.unused
            ≡ ok cell)
        × (decrypt crypto version bs dec_key receiver_hash
            ≡ ok (record cell { unused = cell.unused ++ replicate n 0 }, key, receiver_hash))
  unfolding encrypt
  decrypt-encrypt c bs hash new_hash receiver_hash new_key h =
      let header_size : ℕ = (link_protocol version).circ_id_size.size + 1 in
      let (packed, p1, h1) = >>=-eq-ok (pack c version) _ h in
      let given : Digest =
        of_bytes (crypto.hash_digest (crypto.hash_update hash (drop header_size packed))) in
      let (cell, made, h2) =
        >>=-eq-ok (init c.circ_id (str c.command) c.content given c.stream_id c.recognized c.unused)
          _ h1 in
      let (repacked, p2, h3) = >>=-eq-ok (pack cell version) _ h2 in
      let (sent, hashed) = sent_and_hash _ _ _ _ _ _ h3 in
      let valid =
        init-IsRelayCell c.circ_id (str c.command) c.content given c.stream_id c.recognized c.unused
          cell made in
      let (n, key, decrypted) = decrypt-packed cell repacked receiver_hash valid p2 in
      (
        cell,
        n,
        key,
        packed,
        p1,
        sym hashed,
        subst
            (λ x.
              init c.circ_id (str c.command) c.content (of_bytes (crypto.hash_digest x)) c.stream_id
                c.recognized c.unused
              ≡ ok cell)
            hashed made,
        subst
            (λ x.
              decrypt crypto version x dec_key receiver_hash
              ≡ ok (record cell { unused = cell.unused ++ replicate n 0 }, key, receiver_hash))
            sent decrypted,
      )
