-- ===== src/Client/Datatype/Framing.antt =====
-- What the fields with a type, a length and a value share: `Address`, `Certificate` and
-- `LinkSpecifier` of client/datatype.py are read and written in this way.
use stem.Base.{
  ℕ, ◌+◌, ◌++◌, ◌≡◌, sym, ap, ◌∙◌, arith, false, ltb, Bytes, length, take, drop, All, num,
}
use stem.Base.{
  append_assoc, length-append, length-take, take-append, drop-append, take-append-drop, All-take,
  All-drop,
}
use stem.Base.{Result, ok, value_error, ◌>>=◌, ◌>>◌, raise_if, >>=-eq-ok}
use stem.Client.Datatype.Size.{Size, char, split, pack, pop, IsByte}
use stem.Client.Datatype.Size.Laws.{pop-pack, pack-pop, pop_inv}

-- The value of a frame of type `t`, which `make` turns into a field.
abbrev pub read_value : {A : Type 0} → (ℕ → Bytes → Result A) → ℕ → ℕ → Bytes → Result (A × Bytes)
read_value make t n content = do
  raise_if (ltb (length content) n) value_error
  let (v, content) = split content n
  a ← make t v
  ok (a, content)

abbrev pub read_frame : {A : Type 0} → Size → (ℕ → Bytes → Result A) → Bytes → Result (A × Bytes)
read_frame len make content = do
  (t, content) ← pop char content
  (n, content) ← pop len content
  read_value make t n content

popped_bytes :
    (s : Size) (content rest : Bytes) (v : ℕ)
    → All IsByte content
    → pop s content ≡ ok (v, rest)
    → All IsByte rest
popped_bytes s content rest v bytes h =
    rw ((pop_inv s content rest v h).2) (All-drop IsByte s.size content bytes)

module _ {A : Type 0} (make : ℕ → Bytes → Result A) where
  read_value-append :
      (t : ℕ) (v rest : Bytes) {a : A}
      → make t v ≡ ok a
      → read_value make t (length v) (v ++ rest) ≡ ok (a, rest)
  read_value-append t v rest e =
      let room : ltb (length v + length rest) (length v) ≡ false = ground arith in
      rw (length-append v rest, room, take-append v rest, drop-append v rest, e)

  read_value_inv :
      (t n : ℕ) (content rest : Bytes) (a : A)
      → read_value make t n content ≡ ok (a, rest)
      → (length (take n content) ≡ n) × (make t (take n content) ≡ ok a) × (rest ≡ drop n content)
  read_value_inv t n content rest a h = ground (arith, length-take n content)

  -- A frame that was written is read, whatever follows it.
  pub read_frame-pack :
      (len : Size) (t : ℕ) (v b1 b2 rest : Bytes) {a : A}
      → pack char (num t) ≡ ok b1
      → pack len (num (length v)) ≡ ok b2
      → make t v ≡ ok a
      → read_frame len make ((b1 ++ (b2 ++ v)) ++ rest) ≡ ok (a, rest)
  read_frame-pack len t v b1 b2 rest p1 p2 e =
      rw
        (
          append_assoc,
          append_assoc,
          pop-pack char t b1 (b2 ++ (v ++ rest)) p1,
          pop-pack len (length v) b2 (v ++ rest) p2,
        )
        (read_value-append t v rest e)

  -- What was read: a frame, which packs to the bytes that were consumed.
  pub read_frame_inv :
      (len : Size) (content rest : Bytes) (a : A)
      → All IsByte content
      → read_frame len make content ≡ ok (a, rest)
      → (t : ℕ) × (v : Bytes) × (b1 : Bytes) × (b2 : Bytes) × (pack char (num t) ≡ ok b1)
        × (pack len (num (length v)) ≡ ok b2)
        × (make t v ≡ ok a)
        × (All IsByte v)
        × (content ≡ (b1 ++ (b2 ++ v)) ++ rest)
  read_frame_inv len content rest a bytes h =
      let (p1, popped1, h1) = >>=-eq-ok (pop char content) _ h in
      let (b1, packed1, whole1) = pack-pop char content p1.1 p1.0 bytes popped1 in
      let c1_bytes : All IsByte p1.1 = popped_bytes char content p1.1 p1.0 bytes popped1 in
      let (p2, popped2, h2) = >>=-eq-ok (pop len p1.1) _ h1 in
      let (b2, packed2, whole2) = pack-pop len p1.1 p2.1 p2.0 c1_bytes popped2 in
      let c2_bytes : All IsByte p2.1 = popped_bytes len p1.1 p2.1 p2.0 c1_bytes popped2 in
      let (size, made, after) = read_value_inv p1.0 p2.0 p2.1 rest a h2 in
      let v : Bytes = take p2.0 p2.1 in
      let whole : p2.1 ≡ v ++ rest = rw after (sym (take-append-drop p2.0 p2.1)) in
      (
        p1.0,
        v,
        b1,
        b2,
        packed1,
        rw size packed2,
        made,
        All-take IsByte p2.0 p2.1 c2_bytes,
        whole1
            ∙ ap (λ c. b1 ++ c) (whole2 ∙ ap (λ c. b2 ++ c) whole)
            ∙ rw (append_assoc, append_assoc),
      )
