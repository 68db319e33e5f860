-- ===== src/Client/Datatype/Certificate/Laws.antt =====
-- A certificate is popped as it was packed, and packs to the bytes it was popped from.
use stem.Base.{
  ℕ, ◌++◌, ◌≡◌, refl, Bytes, length, All, Value, num, Result, ok, >>=-eq-ok, pair-eq-ok,
}
use stem.Client.Datatype.Enums.{cert_type, get}
use stem.Client.Datatype.Enums.Laws.{get-get, all_Unique}
use stem.Client.Datatype.Size.{char, short, IsByte}
use stem.Client.Datatype.Size
use stem.Client.Datatype.Size.Laws.{pack_num}
use stem.Client.Datatype.Framing.{read_frame, read_frame-pack, read_frame_inv}
use stem.Client.Datatype.Field.{Field}
use stem.Client.Datatype.Certificate.{Certificate, init, pack, pop}

-- The certificate was made by the constructor.
abbrev pub Constructed : Certificate → Type 0
Constructed c = (t : Value) × (init t c.value ≡ ok c)

abbrev make : ℕ → Bytes → Result Certificate
make t v = init (num t) v

pop-read_frame : (content : Bytes) → pop content ≡ read_frame short make content
unfolding pop
pop-read_frame content = refl

make-Constructed :
    (c : Certificate) (n : ℕ) → Constructed c → c.type_int ≡ num n → make n c.value ≡ ok c
unfolding init
make-Constructed c n (t, made) e =
    let (kind, known, built) = >>=-eq-ok (get cert_type t) _ made in
    let known_num : get cert_type t ≡ ok (c.cert_type, num n) = cc (known, built, e) in
    rw (get-get cert_type t c.cert_type n all_Unique.2 known_num) (cc)

-- A certificate that the constructor made is popped as it was packed, whatever follows.
pub pop-pack :
    (c : Certificate) (bs rest : Bytes)
    → Constructed c
    → pack c ≡ ok bs
    → pop (bs ++ rest) ≡ ok (c, rest)
unfolding pack
pop-pack c bs rest wire packed =
    let (kind, size, p1, p2, e) =
      pair-eq-ok (Size.pack char c.type_int) (Size.pack short (num (length c.value)))
        (λ k s. k ++ (s ++ c.value)) packed in
    let (n, is_num) = pack_num char c.type_int kind p1 in
    rw (pop-read_frame, ← e)
      (read_frame-pack make short n c.value kind size rest (rw is_num at p1) p2
        (make-Constructed c n wire is_num))

make_fields :
    (t : ℕ) (v : Bytes) (c : Certificate) → make t v ≡ ok c → (c.type_int ≡ num t) × (c.value ≡ v)
unfolding init get
make_fields t v c h = (cc, cc)

pack-fields :
    (c : Certificate) (t : ℕ) (v b1 b2 : Bytes)
    → Size.pack char (num t) ≡ ok b1
    → Size.pack short (num (length v)) ≡ ok b2
    → (c.type_int ≡ num t) × (c.value ≡ v)
    → pack c ≡ ok (b1 ++ (b2 ++ v))
unfolding pack
pack-fields c t v b1 b2 p1 p2 (e1, e2) = rw (e1, e2, p1, p2)

-- What is popped from bytes packs to the bytes that were consumed.
pub pack-pop_certificate :
    (content rest : Bytes) (c : Certificate)
    → All IsByte content
    → pop content ≡ ok (c, rest)
    → (bs : Bytes) × (pack c ≡ ok bs) × (content ≡ bs ++ rest)
pack-pop_certificate content rest c bytes h =
    let (t, v, b1, b2, p1, p2, made, _, whole) =
      read_frame_inv make short content rest c bytes (rw pop-read_frame at h) in
    (b1 ++ (b2 ++ v), pack-fields c t v b1 b2 p1 p2 (make_fields t v c made), whole)

abbrev pub field : Field Certificate
field = record { pack = pack; pop = pop; OnWire = Constructed; pop-pack = pop-pack }
