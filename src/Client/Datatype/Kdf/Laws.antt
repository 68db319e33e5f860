-- ===== src/Client/Datatype/Kdf/Laws.antt =====
-- The key derivation ends, and cuts its keys out of the hashes of the numbered key material.
use stem.Base.{
  ℕ, suc, ◌+◌, ◌≤◌, ◌<◌, [], ◌∷◌, ◌++◌, true, false, ◌≡◌, ap, ◌∙◌, arith, ltb, Bytes, length,
  length-append, take, drop, ok, append_assoc, take_add, length-take, length-drop,
}
use stem.Client.Datatype.Size.{char, to_bytes}
use stem.Client.Datatype.Size.Laws.{pack-ok}
use stem.Client.Datatype.Kdf.{Kdf, hash_len, key_len, key_material_len, derive, cut, from_value}

length-take-le : (n : ℕ) (s : Bytes) → n ≤ length s → length (take n s) ≡ n
length-take-le n s h = omega (arith, length-take n s)

pieces :
    (s : Bytes)
    → take 20 s
        ++ (take 20 (drop 20 s)
            ++ (take 20 (drop 20 (drop 20 s))
                ++ (take 16 (drop 20 (drop 20 (drop 20 s)))
                    ++ take 16 (drop 16 (drop 20 (drop 20 (drop 20 s)))))))
      ≡ take key_material_len s
pieces s = rw (take_add 20 72 s, take_add 20 52, take_add 20 32, take_add 16 16)

module _ (sha1 : Bytes → Bytes) (sha1_length : (bs : Bytes) → length (sha1 bs) ≡ hash_len)
    (material : Bytes) where
  -- The hash of the key material and one counter byte.
  abbrev pub block : ℕ → Bytes
  block counter = sha1 (material ++ (counter ∷ []))

  abbrev pub stream : Bytes
  stream = block 0 ++ (block 1 ++ (block 2 ++ (block 3 ++ block 4)))

  derive-step :
      (fuel : ℕ) (derived : Bytes) (counter : ℕ)
      → counter < 256
      → length derived < key_material_len
      → derive sha1 (suc fuel) material derived counter
        ≡ derive sha1 fuel material (derived ++ block counter) (counter + 1)
  unfolding derive
  derive-step fuel derived counter small short =
      let go : ltb (length derived) key_material_len ≡ true = ground arith in
      let digit : to_bytes 1 counter ≡ counter ∷ [] = (unfold to_bytes in ground arith) in
      rw (go, pack-ok char counter small, digit)

  derive-done :
      (fuel : ℕ) (derived : Bytes) (counter : ℕ)
      → key_material_len ≤ length derived
      → derive sha1 (suc fuel) material derived counter ≡ ok derived
  unfolding derive
  derive-done fuel derived counter long =
      let stop : ltb (length derived) key_material_len ≡ false = ground arith in rw stop

  length-block : (derived : Bytes) (n : ℕ) → length (derived ++ block n) ≡ length derived + hash_len
  length-block derived n =
      omega (arith, length-append derived (block n), sha1_length (material ++ (n ∷ [])))

  derive-stream : derive sha1 6 material [] 0 ≡ ok stream
  derive-stream =
      let d0 = block 0 in
      let d1 = d0 ++ block 1 in
      let d2 = d1 ++ block 2 in
      let d3 = d2 ++ block 3 in
      let d4 = d3 ++ block 4 in
      let l0 : length d0 ≡ 20 = sha1_length (material ++ (0 ∷ [])) in
      let l1 : length d1 ≡ 40 = omega (arith, length-block d0 1) in
      let l2 : length d2 ≡ 60 = omega (arith, length-block d1 2) in
      let l3 : length d3 ≡ 80 = omega (arith, length-block d2 3) in
      let l4 : length d4 ≡ 100 = omega (arith, length-block d3 4) in
      derive-step 5 [] 0 (omega arith) (omega arith)
      ∙ derive-step 4 d0 1 (omega arith) (omega arith)
      ∙ derive-step 3 d1 2 (omega arith) (omega arith)
      ∙ derive-step 2 d2 3 (omega arith) (omega arith)
      ∙ derive-step 1 d3 4 (omega arith) (omega arith)
      ∙ derive-done 0 d4 5 (omega arith)
      ∙ ap ok (simp append_assoc)

  length-stream : key_material_len ≤ length stream
  length-stream = omega (
    arith,
    length-append (block 0) (block 1 ++ (block 2 ++ (block 3 ++ block 4))),
    length-append (block 1) (block 2 ++ (block 3 ++ block 4)),
    length-append (block 2) (block 3 ++ block 4),
    length-append (block 3) (block 4),
    sha1_length (material ++ (0 ∷ [])),
    sha1_length (material ++ (1 ∷ [])),
    sha1_length (material ++ (2 ∷ [])),
    sha1_length (material ++ (3 ∷ [])),
    sha1_length (material ++ (4 ∷ [])),
  )

  -- For a hash that gives twenty bytes: the derivation succeeds, and the five values are consecutive pieces of the hash stream: three
  -- of twenty bytes, and two of sixteen.
  pub from_value-stream :
      (k : Kdf) × (from_value sha1 material ≡ ok k)
      × (k.key_hash
            ++ (k.forward_digest ++ (k.backward_digest ++ (k.forward_key ++ k.backward_key)))
          ≡ take key_material_len stream)
      × (length k.key_hash ≡ hash_len)
      × (length k.forward_digest ≡ hash_len)
      × (length k.backward_digest ≡ hash_len)
      × (length k.forward_key ≡ key_len)
      × (length k.backward_key ≡ key_len)
  unfolding from_value
  from_value-stream = (
    cut sha1 stream,
    rw derive-stream,
    pieces stream,
    length-take-le 20 stream (omega (arith, length-stream)),
    length-take-le 20 s1 (omega (arith, length-stream, length-drop 20 stream)),
    length-take-le 20 s2 (omega (arith, length-stream, length-drop 20 stream, length-drop 20 s1)),
    length-take-le 16 s3 (omega (arith, left)),
    length-take-le 16 s4 (omega (arith, left, length-drop 16 s3)),
  )
    where
      s1 : Bytes
      s1 = drop 20 stream

      s2 : Bytes
      s2 = drop 20 s1

      s3 : Bytes
      s3 = drop 20 s2

      s4 : Bytes
      s4 = drop 16 s3

      left : 32 ≤ length s3
      left =
          omega (arith, length-stream, length-drop 20 stream, length-drop 20 s1, length-drop 20 s2)
