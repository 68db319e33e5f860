-- ===== src/Client/Datatype/Address/Laws.antt =====
-- An address is popped as it was packed, and the forms that the constructor takes.

use Prim.Native.String.{String}
use text.Mathlib.Text.{◌==◌ as str_eq}
use stem.Base.{
  ℕ, List, [], ◌∷◌, ◌++◌, ◌⊎◌, inl, inr, ◌≡◌, refl, subst, arith, Bytes, length, All, num, str,
  none, some, Result, ok, pair-eq-ok, ◌==◌, ==_iff, true, false,
}
use stem.Base.{isdigit, split_on, count_char}
use stem.Util.Connection.Ipv4.{is_valid_ipv4_address, all_octets, is_octet}
use stem.Util.Connection.Ipv6.{is_valid_ipv6_address}
use stem.Util.Connection.Ipv4.Laws.{dotted, is_valid_ipv4_address-dotted}
use stem.Client.Datatype.Enums.{addr_type, get, enum_to_int}
use stem.Client.Datatype.Size.{char, IsByte, to_bytes}
use stem.Client.Datatype.Size
use stem.Client.Datatype.Framing.{read_frame, read_frame-pack}
use stem.Client.Datatype.Field.{Field}
use stem.Client.Datatype.Packed.Laws.{
  unpack_ipv4_address-dotted, pack_ipv4_address-dotted, unpack_ipv6_address-colon_groups,
  colon_groups,
}
use stem.Client.Datatype.Address.{
  Address, detect_type, init_ipv4, init_ipv6, init_value, init, pack, pop,
}

-- The address is what its own type and encoded value are read as.
abbrev pub OnWire : Address → Type 0
OnWire a = (n : ℕ) × (a.type_int ≡ num n) × (init a.value_bin (some (num n)) ≡ ok a)

abbrev make : ℕ → Bytes → Result Address
make t v = init v (some (num t))

pop-read_frame : (content : Bytes) → pop content ≡ read_frame char make content
unfolding pop
pop-read_frame content = refl

-- Such an address is popped as it was packed, whatever follows.
pub pop-pack :
    (a : Address) (bs rest : Bytes) → OnWire a → pack a ≡ ok bs → pop (bs ++ rest) ≡ ok (a, rest)
unfolding pack
pop-pack a bs rest (n, is_num, read) packed =
    let (kind, size, p1, p2, e) =
      pair-eq-ok (Size.pack char a.type_int) (Size.pack char (num (length a.value_bin)))
        (λ k s. k ++ (s ++ a.value_bin)) packed in
    rw (pop-read_frame, ← e)
      (read_frame-pack make char n a.value_bin kind size rest (rw is_num at p1) p2 read)

abbrev pub field : Field Address
field = record { pack = pack; pop = pop; OnWire = OnWire; pop-pack = pop-pack }

-- Four bytes are no dotted quad, which takes seven characters at least.
four_bytes : (a b c d : ℕ) → is_valid_ipv4_address (a ∷ b ∷ c ∷ d ∷ []) ≡ false
unfolding is_valid_ipv4_address count_char split_on all_octets is_octet isdigit
four_bytes a b c d = ground arith

abbrev pub ipv4_address : Bytes → Address
ipv4_address bs = record {
  addr_type = "IPv4";
  type_int = num 4;
  value = some (dotted bs);
  value_bin = bs;
}

abbrev pub ipv6_address : Bytes → Address
ipv6_address bs = record {
  addr_type = "IPv6";
  type_int = num 6;
  value = some (colon_groups bs);
  value_bin = bs;
}

-- Four packed bytes are an IPv4 address.
pub init-packed_ipv4 : (bs : Bytes) → length bs ≡ 4 → init bs (some (num 4)) ≡ ok (ipv4_address bs)
unfolding init detect_type get init_value init_ipv4
init-packed_ipv4 (a ∷ b ∷ c ∷ d ∷ []) len =
    rw (four_bytes a b c d, unpack_ipv4_address-dotted (a ∷ b ∷ c ∷ d ∷ []) len)
init-packed_ipv4 bs len = absurd (omega arith)

-- So are sixteen bytes an IPv6 address, unless they read as the text of one.
pub init-packed_ipv6 :
    (bs : Bytes)
    → length bs ≡ 16
    → is_valid_ipv6_address bs false ≡ false
    → init bs (some (num 6)) ≡ ok (ipv6_address bs)
unfolding init detect_type get init_value init_ipv6
init-packed_ipv6 bs len plain =
    let size : (length bs == 16) ≡ true = (==_iff (length bs) 16).1 len in
    rw (plain, size, unpack_ipv6_address-colon_groups bs len)

-- An address that is neither, whose bytes are kept, by its number.
abbrev pub other_address : String → ℕ → Bytes → Address
other_address name n bs = record {
  addr_type = name;
  type_int = num n;
  value = none;
  value_bin = bs;
}

abbrev pub IsOther : String → ℕ → Type 0
IsOther name n =
    (get addr_type (num n) ≡ ok (name, num n))
    × (str_eq name "IPv4" ≡ false)
    × (str_eq name "IPv6" ≡ false)

init-other :
    (name : String) (n : ℕ) (bs : Bytes)
    → IsOther name n
    → init bs (some (num n)) ≡ ok (other_address name n bs)
unfolding init detect_type init_value
init-other name n bs h = rw (h.0, h.1, h.2)

-- Four bytes in dotted notation, sixteen bytes in colon notation that do not read as the text of an
-- IPv6 address, or the bytes of another type of address.
abbrev pub IsAddress : Address → Type 0
IsAddress a =
    ((bs : Bytes) × (length bs ≡ 4) × (a ≡ ipv4_address bs))
    ⊎ (((bs : Bytes) × (length bs ≡ 16)
          × (is_valid_ipv6_address bs false ≡ false)
          × (a ≡ ipv6_address bs))
        ⊎ ((name : String) × (n : ℕ) × (bs : Bytes) × IsOther name n
            × (a ≡ other_address name n bs)))

pub IsAddress-OnWire : (a : Address) → IsAddress a → OnWire a
IsAddress-OnWire a (inl (bs, len, e)) = rw e (4, refl, init-packed_ipv4 bs len)
IsAddress-OnWire a (inr (inl (bs, len, plain, e))) = rw e (6, refl, init-packed_ipv6 bs len plain)
IsAddress-OnWire a (inr (inr (name, n, bs, h, e))) = rw e (n, refl, init-other name n bs h)

pub All-OnWire : (addresses : List Address) → All IsAddress addresses → All OnWire addresses
All-OnWire [] h = tt
All-OnWire (a ∷ addresses) h = (IsAddress-OnWire a h.0, All-OnWire addresses h.1)

init_ipv4-dotted :
    (bs : Bytes) → length bs ≡ 4 → All IsByte bs → init_ipv4 (dotted bs) ≡ ok (some (dotted bs), bs)
unfolding init_ipv4
init_ipv4-dotted (a ∷ b ∷ c ∷ d ∷ []) len h =
    rw (is_valid_ipv4_address-dotted a b c d h, pack_ipv4_address-dotted a (b ∷ c ∷ d ∷ []) h)
init_ipv4-dotted bs len h = absurd (omega arith)

detect_type-dotted :
    (bs : Bytes) → length bs ≡ 4 → All IsByte bs → detect_type (dotted bs) none ≡ ok (str "IPv4")
unfolding detect_type
detect_type-dotted (a ∷ b ∷ c ∷ d ∷ []) len h = rw (is_valid_ipv4_address-dotted a b c d h)
detect_type-dotted bs len h = absurd (omega arith)

-- The dotted notation of four bytes is the same address as the packed bytes, with no type given.
pub init-dotted :
    (bs : Bytes) → length bs ≡ 4 → All IsByte bs → init (dotted bs) none ≡ ok (ipv4_address bs)
unfolding init get init_value enum_to_int
init-dotted bs len h = rw (detect_type-dotted bs len h, init_ipv4-dotted bs len h)

pack-ipv4_address : (quad : Bytes) → length quad ≡ 4 → pack (ipv4_address quad) ≡ ok (4 ∷ 4 ∷ quad)
unfolding pack Size.pack to_bytes
pack-ipv4_address quad len = rw len

-- An address that was made from the dotted notation of four bytes packs to its type, its length and
-- these bytes, and is popped from them again, whatever follows.
pub pop-pack_dotted :
    (quad bs rest : Bytes) (a : Address)
    → length quad ≡ 4
    → All IsByte quad
    → init (dotted quad) none ≡ ok a
    → pack a ≡ ok bs
    → (bs ≡ 4 ∷ 4 ∷ quad) × (pop (bs ++ rest) ≡ ok (a, rest))
pop-pack_dotted quad bs rest a len bytes made packed =
    let same : ipv4_address quad ≡ a = cc (made, init-dotted quad len bytes) in
    let size = pack-ipv4_address quad len in
    let encoded : pack a ≡ ok (4 ∷ 4 ∷ quad) = subst (λ x. pack x ≡ ok (4 ∷ 4 ∷ quad)) same size in
    let wire : OnWire a = subst OnWire same (4, refl, init-packed_ipv4 quad len) in
    (cc (encoded, packed), pop-pack a bs rest wire packed)
