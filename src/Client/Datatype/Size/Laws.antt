-- ===== src/Client/Datatype/Size/Laws.antt =====
-- Packing and unpacking of `Size` are inverse to each other, on exactly the values that fit.
use native.Mathlib.Nat.{pow-suc}
use stem.Base.{negsuc, str, ℕ, zero, suc, ◌+◌, ◌*◌, ◌/◌, ◌%◌, ◌^◌, ◌<◌, [], ◌∷◌, ◌++◌}
use stem.Base.{◌≡◌, refl, sym, ap, ◌∙◌, arith, Bytes, length, take, drop, Value, num, int, pos}
use stem.Base.{
  length-append, length-take, length-drop, take-append_at, drop-append_at, take-append-drop,
}
use stem.Base.{append_assoc, append-nil, All, All-append, All-take}
use stem.Base.{true, ◌==◌, Error, ok, err, value_error, lt→ltb}
use stem.Client.Datatype.Size.{Size, IsByte, to_bytes, from_bytes, pack, unpack, pop}

pub length-to_bytes : (w v : ℕ) → length (to_bytes w v) ≡ w
unfolding to_bytes
length-to_bytes zero v = refl
length-to_bytes (suc w) v =
    omega (arith, length-append (to_bytes w (v / 256)) (v % 256 ∷ []), length-to_bytes w (v / 256))

pub to_bytes-IsByte : (w v : ℕ) → All IsByte (to_bytes w v)
unfolding to_bytes
to_bytes-IsByte zero v = tt
to_bytes-IsByte (suc w) v =
    All-append IsByte (to_bytes w (v / 256)) _ (to_bytes-IsByte w (v / 256)) (omega arith)

from_bytes-snoc :
    (acc : ℕ) (bs : Bytes) (b : ℕ) → from_bytes acc (bs ++ (b ∷ [])) ≡ from_bytes acc bs * 256 + b
unfolding from_bytes
from_bytes-snoc acc [] b = refl
from_bytes-snoc acc (c ∷ bs) b = from_bytes-snoc (acc * 256 + c) bs b

pub from_bytes-to_bytes : (w v : ℕ) → v < 256 ^ w → from_bytes 0 (to_bytes w v) ≡ v
unfolding to_bytes
from_bytes-to_bytes zero v h = unfold from_bytes in omega arith
from_bytes-to_bytes (suc w) v h =
    let small : v / 256 < 256 ^ w = omega (arith, pow-suc 256 w) in
    rw from_bytes-snoc (omega (arith, from_bytes-to_bytes w (v / 256) small))

-- The digits of an accumulated value: those of what was there before, then the bytes read.
to_bytes-from_bytes_acc :
    (bs : Bytes) (k acc : ℕ)
    → All IsByte bs
    → to_bytes (length bs + k) (from_bytes acc bs) ≡ to_bytes k acc ++ bs
unfolding from_bytes to_bytes
to_bytes-from_bytes_acc [] k acc h = let e : 0 + k ≡ k = omega arith in rw (e, append-nil)
to_bytes-from_bytes_acc (b ∷ bs) k acc h =
    let e : suc (length bs) + k ≡ length bs + suc k = omega arith in
    let high : (acc * 256 + b) / 256 ≡ acc = omega arith in
    let low : (acc * 256 + b) % 256 ≡ b = omega arith in
    rw e (
      to_bytes-from_bytes_acc bs (suc k) (acc * 256 + b) h.1
      ∙ rw (high, low) (append_assoc (to_bytes k acc) (b ∷ []) bs))

pub from_bytes-lt :
    (bs : Bytes) (acc k : ℕ)
    → All IsByte bs
    → acc < 256 ^ k
    → from_bytes acc bs < 256 ^ (length bs + k)
unfolding from_bytes
from_bytes-lt [] acc k h a = let e : 0 + k ≡ k = omega arith in rw e a
from_bytes-lt (b ∷ bs) acc k h a =
    let e : suc (length bs) + k ≡ length bs + suc k = omega arith in
    rw e (from_bytes-lt bs (acc * 256 + b) (suc k) h.1 (omega (arith, pow-suc 256 k)))

module _ (w : ℕ) (bs : Bytes) (len : length bs ≡ w) (bytes : All IsByte bs) where
  pub to_bytes-from_bytes : to_bytes w (from_bytes 0 bs) ≡ bs
  unfolding to_bytes
  to_bytes-from_bytes =
      let e : w ≡ length bs + 0 = omega arith in rw e (to_bytes-from_bytes_acc bs 0 0 bytes)

  pub from_bytes-fits : from_bytes 0 bs < 256 ^ w
  from_bytes-fits =
      let e : w ≡ length bs + 0 = omega arith in rw e (from_bytes-lt bs 0 0 bytes (omega arith))

-- A value fits a field exactly when it is below 256 to the field's size.
pub pack-ok : (s : Size) (v : ℕ) → v < 256 ^ s.size → pack s (num v) ≡ ok (to_bytes s.size v)
unfolding pack
pack-ok s v h = rw (lt→ltb v (256 ^ s.size) h)

pub pack_inv :
    (s : Size) (v : ℕ) (bs : Bytes)
    → pack s (num v) ≡ ok bs
    → (v < 256 ^ s.size) × (bs ≡ to_bytes s.size v)
unfolding pack
pack_inv s v bs h = ground arith

pub length-pack : (s : Size) (v : ℕ) (bs : Bytes) → pack s (num v) ≡ ok bs → length bs ≡ s.size
length-pack s v bs h = let (_, e) = pack_inv s v bs h in rw e (length-to_bytes s.size v)

-- What was packed is popped again, whatever follows it.
pub pop-pack :
    (s : Size) (v : ℕ) (bs rest : Bytes)
    → pack s (num v) ≡ ok bs
    → pop s (bs ++ rest) ≡ ok (v, rest)
unfolding pop
pop-pack s v bs rest h =
    let (fits, e) = pack_inv s v bs h in
    let len : length bs ≡ s.size = length-pack s v bs h in
    rw (take-append_at s.size bs rest len, drop-append_at s.size bs rest len)
      (ground (arith, len, ap (from_bytes 0) e, from_bytes-to_bytes s.size v fits))

pub pop_inv :
    (s : Size) (packed rest : Bytes) (v : ℕ)
    → pop s packed ≡ ok (v, rest)
    → (length (take s.size packed) ≡ s.size)
      × (v ≡ from_bytes 0 (take s.size packed))
      × (rest ≡ drop s.size packed)
unfolding pop
pop_inv s packed rest v h = ground arith

-- What was popped from bytes packs to the bytes that were consumed.
pub pack-pop :
    (s : Size) (packed rest : Bytes) (v : ℕ)
    → All IsByte packed
    → pop s packed ≡ ok (v, rest)
    → (bs : Bytes) × (pack s (num v) ≡ ok bs) × (packed ≡ bs ++ rest)
pack-pop s packed rest v bytes h =
    let (len, value, after) = pop_inv s packed rest v h in
    let front : Bytes = take s.size packed in
    let front_bytes : All IsByte front = All-take IsByte s.size packed bytes in
    let whole : packed ≡ front ++ rest = rw after (sym (take-append-drop s.size packed)) in
    let fits : v < 256 ^ s.size = rw value (from_bytes-fits s.size front len front_bytes) in
    let same : to_bytes s.size v ≡ front =
      rw value (to_bytes-from_bytes s.size front len front_bytes) in
    (front, pack-ok s v fits ∙ ap ok same, whole)

-- Only a number that is not negative is packed.
pub pack_num : (s : Size) (v : Value) (bs : Bytes) → pack s v ≡ ok bs → (n : ℕ) × (v ≡ num n)
unfolding pack
pack_num s (int (pos n)) bs h = (n, refl)
pack_num s (int (negsuc n)) bs h = cc
pack_num s (str t) bs h = cc

unpack_inv :
    (s : Size) (v : Bytes) (n : ℕ) → unpack s v ≡ ok n → (length v ≡ s.size) × (n ≡ from_bytes 0 v)
unfolding unpack
unpack_inv s v n h = ground arith

-- What was unpacked packs to the same bytes.
pub pack-unpack :
    (s : Size) (v : Bytes) (n : ℕ) → All IsByte v → unpack s v ≡ ok n → pack s (num n) ≡ ok v
pack-unpack s v n bytes h =
    let (len, e) = unpack_inv s v n h in
    rw e (
      pack-ok s (from_bytes 0 v) (from_bytes-fits s.size v len bytes)
      ∙ ap ok (to_bytes-from_bytes s.size v len bytes))

-- Reading fails in one way only.
pub pop-err : (s : Size) (packed : Bytes) (e : Error) → pop s packed ≡ err e → e ≡ value_error
unfolding pop unpack
pop-err s packed e h = ground arith

-- What is read is taken off the front.
pub length-pop :
    (s : Size) (packed rest : Bytes) (v : ℕ)
    → pop s packed ≡ ok (v, rest)
    → length rest + s.size ≡ length packed
length-pop s packed rest v h =
    let (len, _, after) = pop_inv s packed rest v h in
    rw after (omega (arith, len, length-take s.size packed, length-drop s.size packed))

-- What follows the bytes that are read stays behind them.
pub pop-append :
    (s : Size) (packed rest more : Bytes) (v : ℕ)
    → pop s packed ≡ ok (v, rest)
    → pop s (packed ++ more) ≡ ok (v, rest ++ more)
unfolding pop unpack
pop-append s packed rest more v h =
    let (len, value, after) = pop_inv s packed rest v h in
    let front : Bytes = take s.size packed in
    let order : packed ++ more ≡ front ++ (drop s.size packed ++ more) =
      ap (λ b. b ++ more) (sym (take-append-drop s.size packed)) ∙ append_assoc front _ more in
    let exact : (s.size == length front) ≡ true = ground (arith, len) in
    rw (
      order,
      take-append_at s.size front (drop s.size packed ++ more) len,
      drop-append_at s.size front (drop s.size packed ++ more) len,
      exact,
      ← after,
      ← value,
    )
