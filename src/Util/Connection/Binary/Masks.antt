-- ===== src/Util/Connection/Binary/Masks.antt =====
-- The IPv4 masks of a number of bits.
use stem.Base.{
  ℕ, ◌-◌, ◌*◌, ◌^◌, ◌≤◌, ◌≡◌, refl, ap, arith, Bool, true, false, ◌&&◌, ◌==◌, ==_iff, Text, Result,
  ok, err,
}
use stem.Base.Table.{all_below, all_below-lt}
use stem.Util.Connection.Binary.{get_mask_ipv4, get_masked_bits, address_to_int}

abbrev is_ok_of : Result ℕ → ℕ → Bool
is_ok_of (ok n) v = n == v
is_ok_of (err e) v = false

-- Whether the mask of the bits has these bits, and their value.
abbrev is_mask : ℕ → Result Text → Bool
is_mask bits (err e) = false
is_mask bits (ok mask) =
    is_ok_of (get_masked_bits mask) bits
    && is_ok_of (address_to_int mask) ((2 ^ bits - 1) * 2 ^ (32 - bits))

mask_table : all_below 33 (λ bits. is_mask bits (get_mask_ipv4 bits)) ≡ true
unfolding all_below get_mask_ipv4 get_masked_bits address_to_int
mask_table = refl

is_ok_of-ok : (r : Result ℕ) (v : ℕ) → is_ok_of r v ≡ true → r ≡ ok v
is_ok_of-ok (ok n) v h = ap (λ n. ok n) ((==_iff n v).0 h)
is_ok_of-ok (err e) v h = cc h

both : (a b : Bool) → (a && b) ≡ true → (a ≡ true) × (b ≡ true)
both true true h = (refl, refl)
both true false h = cc h
both false b h = cc h

is_mask_inv :
    (bits : ℕ) (r : Result Text)
    → is_mask bits r ≡ true
    → (mask : Text) × (r ≡ ok mask)
      × (get_masked_bits mask ≡ ok bits)
      × (address_to_int mask ≡ ok ((2 ^ bits - 1) * 2 ^ (32 - bits)))
is_mask_inv bits (err e) h = cc h
is_mask_inv bits (ok mask) h =
    let (b, v) = both (is_ok_of (get_masked_bits mask) bits) _ h in
    (mask, refl, is_ok_of-ok (get_masked_bits mask) bits b, is_ok_of-ok (address_to_int mask) _ v)

-- The mask of up to 32 bits has so many bits again, and its value has these bits first and zeros
-- behind them.
pub get_masked_bits-get_mask_ipv4 :
    (bits : ℕ)
    → bits ≤ 32
    → (mask : Text) × (get_mask_ipv4 bits ≡ ok mask)
      × (get_masked_bits mask ≡ ok bits)
      × (address_to_int mask ≡ ok ((2 ^ bits - 1) * 2 ^ (32 - bits)))
get_masked_bits-get_mask_ipv4 bits h =
    is_mask_inv bits (get_mask_ipv4 bits)
      (all_below-lt 33 (λ bits. is_mask bits (get_mask_ipv4 bits)) bits mask_table (omega arith))
