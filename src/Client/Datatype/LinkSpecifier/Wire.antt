-- ===== src/Client/Datatype/LinkSpecifier/Wire.antt =====
-- The bytes of a link specifier of each class of client/datatype.py, which is popped from them again.
use stem.Base.{
  ℕ, ◌+◌, ◌*◌, ◌/◌, ◌%◌, ◌≤◌, ◌<◌, ◌==◌, [], ◌∷◌, ◌++◌, ◌≡◌, refl, arith, Bytes, length, All, num,
  Result, ok, take-append_at, drop-append_at, length-append, ==_iff, true,
}
use stem.Client.Datatype.Size.{char, short, IsByte, to_bytes, from_bytes}
use stem.Client.Datatype.Size
use stem.Client.Datatype.Size.Laws.{pack-ok}
use stem.Client.Datatype.Framing.{read_frame-pack}
use stem.Util.Connection.Ipv4.Laws.{dotted}
use stem.Client.Datatype.Packed.Laws.{
  colon_groups, unpack_ipv4_address-dotted, pack_ipv4_address-dotted,
  unpack_ipv6_address-colon_groups, pack_ipv6_address-colon_groups,
}
use stem.Client.Datatype.LinkSpecifier.{
  LinkSpecifier, by_ipv4, by_ipv6, by_fingerprint, by_ed25519, specifier, link_type, value,
  link_by_ipv4, link_by_ipv6, unpack_ipv4, unpack_ipv6, link_by_fingerprint, link_by_ed25519,
  of_type, pop, pack,
}
use stem.Client.Datatype.LinkSpecifier.Laws.{pop-read_frame, link_by_ipv4-bytes, link_by_ipv6-bytes}

-- What a link leads to, as its class's constructor is given it.
pub data Destination : Type 0 where
  to_ipv4 to_ipv6 : Bytes → ℕ → Destination
  to_fingerprint to_ed25519 : Bytes → Destination
  to_other : ℕ → Bytes → Destination

abbrev pub IsDestination : Destination → Type 0
IsDestination (to_ipv4 quad port) = (length quad ≡ 4) × All IsByte quad × (port < 65536)
IsDestination (to_ipv6 groups port) = (length groups ≡ 16) × All IsByte groups × (port < 65536)
IsDestination (to_fingerprint v) = length v ≡ 20
IsDestination (to_ed25519 v) = length v ≡ 32
IsDestination (to_other t v) = (4 ≤ t) × (t < 256) × (length v < 256)

-- The constructor's call.
abbrev pub link_to : Destination → Result LinkSpecifier
link_to (to_ipv4 quad port) = link_by_ipv4 (dotted quad) port
link_to (to_ipv6 groups port) = link_by_ipv6 (colon_groups groups) port
link_to (to_fingerprint v) = link_by_fingerprint v
link_to (to_ed25519 v) = link_by_ed25519 v
link_to (to_other t v) = ok (specifier t v)

-- The two bytes of a port.
abbrev pub port_bytes : ℕ → Bytes
port_bytes port = port / 256 ∷ port % 256 ∷ []

-- The type, the length and the value.
abbrev pub bytes_of : Destination → Bytes
bytes_of (to_ipv4 quad port) = 0 ∷ 6 ∷ quad ++ port_bytes port
bytes_of (to_ipv6 groups port) = 1 ∷ 18 ∷ groups ++ port_bytes port
bytes_of (to_fingerprint v) = 2 ∷ 20 ∷ v
bytes_of (to_ed25519 v) = 3 ∷ 32 ∷ v
bytes_of (to_other t v) = t ∷ length v ∷ v

-- The link is made, packs to the bytes, and is popped from them.
abbrev pub IsRestored : Destination → Bytes → LinkSpecifier → Type 0
IsRestored d rest link =
    (link_to d ≡ ok link)
    × (pack link ≡ ok (bytes_of d))
    × (pop (bytes_of d ++ rest) ≡ ok (link, rest))

port-packed : (port : ℕ) → port < 65536 → Size.pack short (num port) ≡ ok (port_bytes port)
unfolding to_bytes
port-packed port h =
    let high : port / 256 % 256 ≡ port / 256 = omega arith in
    rw (pack-ok short port (omega arith), high)

port-read : (port : ℕ) → Size.unpack short (port_bytes port) ≡ ok port
unfolding Size.unpack from_bytes
port-read port =
    let whole : (0 * 256 + port / 256) * 256 + port % 256 ≡ port = omega arith in rw whole

byte-packed : (b : ℕ) → b < 256 → Size.pack char (num b) ≡ ok (b ∷ [])
unfolding to_bytes
byte-packed b h = let low : b % 256 ≡ b = omega arith in rw (pack-ok char b (omega arith), low)

pack-bytes :
    (t n : ℕ) (link : LinkSpecifier)
    → link_type link ≡ t
    → length (value link) ≡ n
    → t < 256
    → n < 256
    → pack link ≡ ok (t ∷ n ∷ value link)
unfolding pack
pack-bytes t n link kind size ht hn = rw (kind, size, byte-packed t ht, byte-packed n hn)

pop-bytes :
    (t n : ℕ) (v rest : Bytes) (link : LinkSpecifier)
    → t < 256
    → n < 256
    → length v ≡ n
    → of_type t v ≡ ok link
    → pop ((t ∷ n ∷ v) ++ rest) ≡ ok (link, rest)
pop-bytes t n v rest link ht hn len made = rw (pop-read_frame) (
    read_frame-pack of_type char t v (t ∷ []) (n ∷ []) rest (byte-packed t ht)
      (rw len (byte-packed n hn)) made)

-- The value of an IPv4 link is read as this link.
ipv4_read :
    (quad : Bytes) (port : ℕ)
    → IsDestination (to_ipv4 quad port)
    → (link_by_ipv4 (dotted quad) port ≡ ok (by_ipv4 (dotted quad) port (quad ++ port_bytes port)))
      × (of_type 0 (quad ++ port_bytes port)
          ≡ ok (by_ipv4 (dotted quad) port (quad ++ port_bytes port)))
unfolding of_type unpack_ipv4
ipv4_read [] port (len, bytes, small) = absurd (omega arith)
ipv4_read (b ∷ bs) port (len, bytes, small) =
    let quad : Bytes = b ∷ bs in
    let made =
      link_by_ipv4-bytes (dotted quad) port quad (port_bytes port)
        (pack_ipv4_address-dotted b bs bytes) (port-packed port small) in
    let six : (length (quad ++ port_bytes port) == 6) ≡ true =
      (==_iff _ 6).1 (omega (arith, length-append quad (port_bytes port))) in
    (
      made,
      rw (
        six,
        take-append_at 4 quad (port_bytes port) len,
        drop-append_at 4 quad (port_bytes port) len,
        unpack_ipv4_address-dotted quad len,
        port-read port,
        made,
      ),
    )

ipv6_read :
    (groups : Bytes) (port : ℕ)
    → IsDestination (to_ipv6 groups port)
    → (link_by_ipv6 (colon_groups groups) port
        ≡ ok (by_ipv6 (colon_groups groups) port (groups ++ port_bytes port)))
      × (of_type 1 (groups ++ port_bytes port)
          ≡ ok (by_ipv6 (colon_groups groups) port (groups ++ port_bytes port)))
unfolding of_type unpack_ipv6
ipv6_read groups port (len, bytes, small) =
    let made =
      link_by_ipv6-bytes (colon_groups groups) port groups (port_bytes port)
        (pack_ipv6_address-colon_groups 7 groups len bytes) (port-packed port small) in
    let eighteen : (length (groups ++ port_bytes port) == 18) ≡ true =
      (==_iff _ 18).1 (omega (arith, length-append groups (port_bytes port))) in
    (
      made,
      rw (
        eighteen,
        take-append_at 16 groups (port_bytes port) len,
        drop-append_at 16 groups (port_bytes port) len,
        unpack_ipv6_address-colon_groups groups len,
        port-read port,
        made,
      ),
    )

fingerprint_read : (v : Bytes) → length v ≡ 20 → link_by_fingerprint v ≡ ok (by_fingerprint v)
unfolding link_by_fingerprint
fingerprint_read v len = let e : (length v == 20) ≡ true = (==_iff _ 20).1 len in rw e

ed25519_read : (v : Bytes) → length v ≡ 32 → link_by_ed25519 v ≡ ok (by_ed25519 v)
unfolding link_by_ed25519
ed25519_read v len = let e : (length v == 32) ≡ true = (==_iff _ 32).1 len in rw e

other_read : (t : ℕ) (v : Bytes) → 4 ≤ t → of_type t v ≡ ok (specifier t v)
unfolding of_type
other_read t v h = ground arith

-- A link that is made for four bytes in dotted notation, or sixteen bytes in colon notation, and a
-- port of two bytes, for a fingerprint of twenty bytes, an Ed25519 key of thirty-two, or the value of
-- a type from 4 to 255 packs to its type, the length of its value and its value, which has the port in
-- two bytes behind the address, and is popped from these bytes again, whatever follows.
pub pop-link_to :
    (d : Destination) (rest : Bytes)
    → IsDestination d
    → (link : LinkSpecifier) × IsRestored d rest link
pop-link_to (to_ipv4 quad port) rest h =
    let (made, read) = ipv4_read quad port h in
    let size : length (quad ++ port_bytes port) ≡ 6 =
      omega (arith, length-append quad (port_bytes port), h.0) in
    (
      _,
      (
        made,
        pack-bytes 0 6 _ refl size (omega arith) (omega arith),
        pop-bytes 0 6 (quad ++ port_bytes port) rest _ (omega arith) (omega arith) size read,
      ),
    )
pop-link_to (to_ipv6 groups port) rest h =
    let (made, read) = ipv6_read groups port h in
    let size : length (groups ++ port_bytes port) ≡ 18 =
      omega (arith, length-append groups (port_bytes port), h.0) in
    (
      _,
      (
        made,
        pack-bytes 1 18 _ refl size (omega arith) (omega arith),
        pop-bytes 1 18 (groups ++ port_bytes port) rest _ (omega arith) (omega arith) size read,
      ),
    )
pop-link_to (to_fingerprint v) rest h = (
  by_fingerprint v,
  (
    fingerprint_read v h,
    pack-bytes 2 20 _ refl h (omega arith) (omega arith),
    pop-bytes 2 20 v rest _ (omega arith) (omega arith) h (unfold of_type in fingerprint_read v h),
  ),
)
pop-link_to (to_ed25519 v) rest h = (
  by_ed25519 v,
  (
    ed25519_read v h,
    pack-bytes 3 32 _ refl h (omega arith) (omega arith),
    pop-bytes 3 32 v rest _ (omega arith) (omega arith) h (unfold of_type in ed25519_read v h),
  ),
)
pop-link_to (to_other t v) rest (large, small, short_of) = (
  specifier t v,
  (
    refl,
    pack-bytes t (length v) _ refl refl small short_of,
    pop-bytes t (length v) v rest _ small short_of refl (other_read t v large),
  ),
)
