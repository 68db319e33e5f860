-- ===== src/Client/Datatype/LinkSpecifier/Laws.antt =====
-- A link specifier packs to the bytes it was popped from, of client/datatype.py.
use stem.Base.{
  ℕ, zero, suc, [], ◌∷◌, ◌++◌, ◌≡◌, refl, arith, Bytes, Text, length, take, drop, All, num, ok,
  >>=-eq-ok, Bool-cases, inl, inr, ◌==◌,
}
use stem.Base.{All-take, All-drop, take-append-drop, length-take, ==_iff}
use stem.Client.Datatype.Size.{char, short, IsByte, from_bytes}
use stem.Client.Datatype.Size
use stem.Client.Datatype.Size.Laws.{pack-unpack}
use stem.Client.Datatype.Framing.{read_frame, read_frame_inv}
use stem.Client.Datatype.Packed.{
  pack_ipv4_address, unpack_ipv4_address, pack_ipv6_address, unpack_ipv6_address,
}
use stem.Client.Datatype.Packed.Laws.{
  unpack_ipv4_address-dotted, pack_ipv4_address-dotted, unpack_ipv6_address-colon_groups,
  pack_ipv6_address-colon_groups,
}
use stem.Client.Datatype.LinkSpecifier.{
  LinkSpecifier, by_ipv4, by_ipv6, link_type, value, link_by_ipv4, link_by_ipv6, unpack_ipv4,
  unpack_ipv6, link_by_fingerprint, link_by_ed25519, of_type, pop, pack,
}

pub pop-read_frame : (content : Bytes) → pop content ≡ read_frame char of_type content
unfolding pop
pop-read_frame content = refl

-- A link specifier that is read for a type has this type and keeps the bytes of its value.
abbrev Kept : ℕ → Bytes → LinkSpecifier → Type 0
Kept t v link = (link_type link ≡ t) × (value link ≡ v)

pack_ipv4_4 :
    (v : Bytes)
    → length v ≡ 4
    → All IsByte v
    → (a : Text) × (unpack_ipv4_address v ≡ ok a) × (pack_ipv4_address a ≡ ok v)
pack_ipv4_4 [] len h = absurd (omega arith)
pack_ipv4_4 (b ∷ bs) len h =
    (_, unpack_ipv4_address-dotted (b ∷ bs) len, pack_ipv4_address-dotted b bs h)

pack_ipv6_16 :
    (v : Bytes)
    → length v ≡ 16
    → All IsByte v
    → (a : Text) × (unpack_ipv6_address v ≡ ok a) × (pack_ipv6_address a ≡ ok v)
pack_ipv6_16 v len h =
    (_, unpack_ipv6_address-colon_groups v len, pack_ipv6_address-colon_groups 7 v len h)

pub link_by_ipv4-bytes :
    (a : Text) (n : ℕ) (addr port : Bytes)
    → pack_ipv4_address a ≡ ok addr
    → Size.pack short (num n) ≡ ok port
    → link_by_ipv4 a n ≡ ok (by_ipv4 a n (addr ++ port))
unfolding link_by_ipv4
link_by_ipv4-bytes a n addr port p q = rw (p, q)

unpack_ipv4-Kept :
    (v : Bytes) (link : LinkSpecifier) → All IsByte v → unpack_ipv4 v ≡ ok link → Kept 0 v link
unfolding unpack_ipv4
unpack_ipv4-Kept v link bytes h = elim (Bool-cases (length v == 6)) [
  | inr other ↦ cc (rw other at h)
  | inl size ↦
      let len : length (take 4 v) ≡ 4 =
        omega (arith, length-take 4 v, (==_iff (length v) 6).0 size) in
      let (a, unpacked, packed) = pack_ipv4_4 (take 4 v) len (All-take IsByte 4 v bytes) in
      let (n, port, made) =
        >>=-eq-ok (Size.unpack short (drop 4 v)) (link_by_ipv4 a) (rw (size, unpacked) at h) in
      let port_packed = pack-unpack short (drop 4 v) n (All-drop IsByte 4 v bytes) port in
      let built = link_by_ipv4-bytes a n (take 4 v) (drop 4 v) packed port_packed in
      let same : by_ipv4 a n v ≡ link = cc (built, made, take-append-drop 4 v) in
      rw (← same) (refl, refl)
]

pub link_by_ipv6-bytes :
    (a : Text) (n : ℕ) (addr port : Bytes)
    → pack_ipv6_address a ≡ ok addr
    → Size.pack short (num n) ≡ ok port
    → link_by_ipv6 a n ≡ ok (by_ipv6 a n (addr ++ port))
unfolding link_by_ipv6
link_by_ipv6-bytes a n addr port p q = rw (p, q)

unpack_ipv6-Kept :
    (v : Bytes) (link : LinkSpecifier) → All IsByte v → unpack_ipv6 v ≡ ok link → Kept 1 v link
unfolding unpack_ipv6
unpack_ipv6-Kept v link bytes h = elim (Bool-cases (length v == 18)) [
  | inr other ↦ cc (rw other at h)
  | inl size ↦
      let len : length (take 16 v) ≡ 16 =
        omega (arith, length-take 16 v, (==_iff (length v) 18).0 size) in
      let (a, unpacked, packed) = pack_ipv6_16 (take 16 v) len (All-take IsByte 16 v bytes) in
      let (n, port, made) =
        >>=-eq-ok (Size.unpack short (drop 16 v)) (link_by_ipv6 a) (rw (size, unpacked) at h) in
      let port_packed = pack-unpack short (drop 16 v) n (All-drop IsByte 16 v bytes) port in
      let built = link_by_ipv6-bytes a n (take 16 v) (drop 16 v) packed port_packed in
      let same : by_ipv6 a n v ≡ link = cc (built, made, take-append-drop 16 v) in
      rw (← same) (refl, refl)
]

link_by_fingerprint-Kept :
    (v : Bytes) (link : LinkSpecifier) → link_by_fingerprint v ≡ ok link → Kept 2 v link
unfolding link_by_fingerprint
link_by_fingerprint-Kept v link h = ground arith

link_by_ed25519-Kept :
    (v : Bytes) (link : LinkSpecifier) → link_by_ed25519 v ≡ ok link → Kept 3 v link
unfolding link_by_ed25519
link_by_ed25519-Kept v link h = ground arith

of_type-Kept :
    (t : ℕ) (v : Bytes) (link : LinkSpecifier)
    → All IsByte v
    → of_type t v ≡ ok link
    → Kept t v link
unfolding of_type
of_type-Kept zero v link bytes h = unpack_ipv4-Kept v link bytes h
of_type-Kept (suc zero) v link bytes h = unpack_ipv6-Kept v link bytes h
of_type-Kept (suc (suc zero)) v link bytes h = link_by_fingerprint-Kept v link h
of_type-Kept (suc (suc (suc zero))) v link bytes h = link_by_ed25519-Kept v link h
of_type-Kept (suc (suc (suc (suc t)))) v link bytes h = ground arith

pack-Kept :
    (t : ℕ) (v b1 b2 : Bytes) (link : LinkSpecifier)
    → Size.pack char (num t) ≡ ok b1
    → Size.pack char (num (length v)) ≡ ok b2
    → Kept t v link
    → pack link ≡ ok (b1 ++ (b2 ++ v))
unfolding pack
pack-Kept t v b1 b2 link p1 p2 (e1, e2) = rw (e1, e2, p1, p2)

-- What is popped from bytes packs to the bytes that were consumed, for every type of link.
pub pack-pop_link :
    (content rest : Bytes) (link : LinkSpecifier)
    → All IsByte content
    → pop content ≡ ok (link, rest)
    → (bs : Bytes) × (pack link ≡ ok bs) × (content ≡ bs ++ rest)
pack-pop_link content rest link bytes h =
    let (t, v, b1, b2, p1, p2, made, v_bytes, whole) =
      read_frame_inv of_type char content rest link bytes (rw pop-read_frame at h) in
    (b1 ++ (b2 ++ v), pack-Kept t v b1 b2 link p1 p2 (of_type-Kept t v link v_bytes made), whole)
