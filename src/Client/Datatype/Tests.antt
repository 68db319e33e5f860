-- ===== src/Client/Datatype/Tests.antt =====
-- Concrete fields, to which the theorems about client/datatype.py are applied.

use stem.Base.{[], ◌∷◌, ◌++◌, ◌≡◌, refl, arith, Bytes, length, take, replicate, num, str, ok}
use stem.Client.Datatype.Enums.{cert_type, int_to_enum, enum_to_int, get}
use stem.Client.Datatype.Enums.Laws.{get-get, all_Unique}
use stem.Client.Datatype.Size
use stem.Client.Datatype.Size.{char, short, long, to_bytes, from_bytes, IsByte}
use stem.Client.Datatype.Size.Laws.{pop-pack, pack-pop}
use stem.Client.Datatype.Address
use stem.Client.Datatype.Address.{Address}
use stem.Client.Datatype.Address.Laws.{ipv4_address, init-dotted, pop-pack_dotted}
use stem.Client.Datatype.Certificate
use stem.Client.Datatype.Certificate.{Certificate}
use stem.Client.Datatype.Certificate.Laws.{pack-pop_certificate}
use stem.Client.Datatype.Certificate.Laws as Certificates
use stem.Client.Datatype.Field.{pack_all, pop_many, pop_many-pack_all}
use stem.Client.Datatype.LinkSpecifier
use stem.Client.Datatype.LinkSpecifier.{
  LinkSpecifier, by_fingerprint, of_type, link_type, value, link_by_fingerprint,
}
use stem.Client.Datatype.LinkSpecifier.Laws.{pack-pop_link}
use stem.Client.Datatype.LinkSpecifier.Wire.{to_ipv4, IsRestored, pop-link_to}
use stem.Client.Datatype.Kdf.{Kdf, from_value, key_material_len}
use stem.Client.Datatype.Kdf.Laws.{stream, from_value-stream}

pack-port : Size.pack short (num 9001) ≡ ok (35 ∷ 41 ∷ [])
unfolding Size.pack to_bytes
pack-port = refl

pop-pack_example : Size.pop short ((35 ∷ 41 ∷ []) ++ (8 ∷ [])) ≡ ok (9001, 8 ∷ [])
pop-pack_example = pop-pack short 9001 (35 ∷ 41 ∷ []) (8 ∷ []) pack-port

pop-port : Size.pop short (35 ∷ 41 ∷ 8 ∷ []) ≡ ok (9001, 8 ∷ [])
unfolding Size.pop Size.unpack from_bytes
pop-port = refl

pack-pop_example :
    (bs : Bytes) × (Size.pack short (num 9001) ≡ ok bs) × (35 ∷ 41 ∷ 8 ∷ [] ≡ bs ++ (8 ∷ []))
pack-pop_example = pack-pop short (35 ∷ 41 ∷ 8 ∷ []) (8 ∷ []) 9001 (omega arith) pop-port

get-signing : get cert_type (str "ED25519_SIGNING") ≡ ok ("ED25519_SIGNING", num 4)
unfolding get enum_to_int
get-signing = refl

get-get_example : get cert_type (num 4) ≡ ok ("ED25519_SIGNING", num 4)
get-get_example =
    get-get cert_type (str "ED25519_SIGNING") "ED25519_SIGNING" 4 all_Unique.2 get-signing

abbrev cert_bytes : Bytes
cert_bytes = 4 ∷ 0 ∷ 3 ∷ 7 ∷ 8 ∷ 9 ∷ []

abbrev signing_cert : Certificate
signing_cert = record { cert_type = "ED25519_SIGNING"; type_int = num 4; value = 7 ∷ 8 ∷ 9 ∷ [] }

pop-cert : Certificate.pop (cert_bytes ++ (1 ∷ [])) ≡ ok (signing_cert, 1 ∷ [])
unfolding Certificate.pop Certificate.init Size.pop Size.unpack from_bytes get int_to_enum
pop-cert = refl

pack-pop_certificate_example :
    (bs : Bytes) × (Certificate.pack signing_cert ≡ ok bs)
    × (cert_bytes ++ (1 ∷ []) ≡ bs ++ (1 ∷ []))
pack-pop_certificate_example =
    pack-pop_certificate (cert_bytes ++ (1 ∷ [])) (1 ∷ []) signing_cert (omega arith) pop-cert

signing_cert-Constructed : Certificates.Constructed signing_cert
unfolding Certificate.init get int_to_enum
signing_cert-Constructed = (num 4, refl)

pack_all-certs :
    pack_all Certificates.field (signing_cert ∷ signing_cert ∷ []) ≡ ok (cert_bytes ++ cert_bytes)
unfolding pack_all Certificate.pack Size.pack to_bytes
pack_all-certs = refl

pop_many-pack_all_example :
    pop_many Certificates.field 2 ((cert_bytes ++ cert_bytes) ++ (5 ∷ []))
    ≡ ok (signing_cert ∷ signing_cert ∷ [], 5 ∷ [])
pop_many-pack_all_example =
    pop_many-pack_all Certificates.field (signing_cert ∷ signing_cert ∷ [])
      (cert_bytes ++ cert_bytes) (5 ∷ []) (signing_cert-Constructed, (signing_cert-Constructed, tt))
      pack_all-certs

abbrev fingerprint_link : LinkSpecifier
fingerprint_link = by_fingerprint (replicate 20 6)

abbrev link_bytes : Bytes
link_bytes = 2 ∷ 20 ∷ replicate 20 6

pop-link : LinkSpecifier.pop (link_bytes ++ (3 ∷ [])) ≡ ok (fingerprint_link, 3 ∷ [])
unfolding LinkSpecifier.pop Size.pop Size.unpack from_bytes of_type link_by_fingerprint
pop-link = refl

pack-pop_link_example :
    (bs : Bytes) × (LinkSpecifier.pack fingerprint_link ≡ ok bs)
    × (link_bytes ++ (3 ∷ []) ≡ bs ++ (3 ∷ []))
pack-pop_link_example =
    pack-pop_link (link_bytes ++ (3 ∷ [])) (3 ∷ []) fingerprint_link (omega arith) pop-link

pop-link_to_example :
    (link : LinkSpecifier) × IsRestored (to_ipv4 (127 ∷ 0 ∷ 0 ∷ 1 ∷ []) 9001) (3 ∷ []) link
pop-link_to_example =
    pop-link_to (to_ipv4 (127 ∷ 0 ∷ 0 ∷ 1 ∷ []) 9001) (3 ∷ []) (refl, omega arith, omega arith)

abbrev home : Address
home = ipv4_address (127 ∷ 0 ∷ 0 ∷ 1 ∷ [])

abbrev home_bytes : Bytes
home_bytes = 4 ∷ 4 ∷ 127 ∷ 0 ∷ 0 ∷ 1 ∷ []

pack-home : Address.pack home ≡ ok home_bytes
unfolding Address.pack Size.pack to_bytes
pack-home = refl

pop-pack_dotted_example :
    (home_bytes ≡ home_bytes) × (Address.pop (home_bytes ++ (6 ∷ [])) ≡ ok (home, 6 ∷ []))
pop-pack_dotted_example =
    pop-pack_dotted (127 ∷ 0 ∷ 0 ∷ 1 ∷ []) home_bytes (6 ∷ []) home refl (omega arith)
      (init-dotted (127 ∷ 0 ∷ 0 ∷ 1 ∷ []) refl (omega arith)) pack-home

-- A hash of twenty bytes.
abbrev length_hash : Bytes → Bytes
length_hash bs = replicate 20 (length bs)

length_hash-length : (bs : Bytes) → length (length_hash bs) ≡ 20
length_hash-length bs = refl

from_value-stream_example :
    (k : Kdf) × (from_value length_hash (1 ∷ 2 ∷ 3 ∷ []) ≡ ok k)
    × (k.key_hash ++ (k.forward_digest ++ (k.backward_digest ++ (k.forward_key ++ k.backward_key)))
        ≡ take key_material_len (stream length_hash length_hash-length (1 ∷ 2 ∷ 3 ∷ [])))
    × (length k.key_hash ≡ 20)
    × (length k.forward_digest ≡ 20)
    × (length k.backward_digest ≡ 20)
    × (length k.forward_key ≡ 16)
    × (length k.backward_key ≡ 16)
from_value-stream_example = from_value-stream length_hash length_hash-length (1 ∷ 2 ∷ 3 ∷ [])
