-- ===== src/Util/Connection/Ipv4/Laws.antt =====
-- Four numbers below 256 in dotted notation are a valid IPv4 address, and are read back.
use stem.Base.{ℕ, ◌<◌, List, [], ◌∷◌, map, true, ◌≡◌, refl, arith, Text, codes, join}
use stem.Base.{split_on, count_char, has_char, all_digits, digits_value, All}
use stem.Base.Pieces.{Lacks, split_on-join, count_char-join}
use stem.Base.Table.{all_below, all_below-lt}
use stem.Util.Decimal.{decimal}
use stem.Util.Decimal.Laws.{digits_value-decimal, all_digits-decimal}
use stem.Util.Connection.Ipv4.{is_octet, all_octets, is_valid_ipv4_address}

-- `'.'.join([str(v) for v in values])`
unfoldable pub dotted : List ℕ → Text
unfolding join
dotted values = join (codes ".") (map decimal values)

Lacks-all_digits : (c : ℕ) (s : Text) → c < b'0' → all_digits s ≡ true → Lacks c s
unfolding has_char all_digits
Lacks-all_digits c [] h e = refl
Lacks-all_digits c (d ∷ s) h e = ground (arith, Lacks-all_digits c s)

-- A decimal number has no character below the digits, such as a period or a comma.
pub decimal-Lacks : (c n : ℕ) → c < b'0' → Lacks c (decimal n)
decimal-Lacks c n h = Lacks-all_digits c (decimal n) h (all_digits-decimal n)

octet_table : all_below 256 (λ n. is_octet (decimal n)) ≡ true
unfolding all_below is_octet decimal
octet_table = refl

is_octet-decimal : (n : ℕ) → n < 256 → is_octet (decimal n) ≡ true
is_octet-decimal n h = all_below-lt 256 (λ n. is_octet (decimal n)) n octet_table h

map-decimal-Lacks : (c : ℕ) (values : List ℕ) → c < b'0' → All (Lacks c) (map decimal values)
map-decimal-Lacks c [] h = tt
map-decimal-Lacks c (v ∷ values) h = (decimal-Lacks c v h, map-decimal-Lacks c values h)

pub map-digits_value : (values : List ℕ) → map (digits_value 0) (map decimal values) ≡ values
map-digits_value [] = refl
map-digits_value (v ∷ values) = rw (digits_value-decimal v, map-digits_value values)

pub split_on-dotted :
    (v : ℕ) (values : List ℕ) → split_on b'.' (dotted (v ∷ values)) ≡ map decimal (v ∷ values)
unfolding dotted
split_on-dotted v values =
    split_on-join b'.' (decimal v) (map decimal values)
      (map-decimal-Lacks b'.' (v ∷ values) (omega arith))

all_octets-decimal :
    (values : List ℕ) → All (λ v. v < 256) values → all_octets (map decimal values) ≡ true
unfolding all_octets
all_octets-decimal [] h = refl
all_octets-decimal (v ∷ values) h = rw (is_octet-decimal v h.0) (all_octets-decimal values h.1)

-- The dotted notation of four octets is valid.
pub is_valid_ipv4_address-dotted :
    (a b c d : ℕ)
    → All (λ v. v < 256) (a ∷ b ∷ c ∷ d ∷ [])
    → is_valid_ipv4_address (dotted (a ∷ b ∷ c ∷ d ∷ [])) ≡ true
unfolding is_valid_ipv4_address
is_valid_ipv4_address-dotted a b c d h =
    let values : List ℕ = a ∷ b ∷ c ∷ d ∷ [] in
    let count : count_char b'.' (dotted values) ≡ 3 =
      (unfold dotted in
        count_char-join b'.' (decimal a) (map decimal (b ∷ c ∷ d ∷ []))
          (map-decimal-Lacks b'.' values (omega arith))) in
    rw (count, split_on-dotted) (all_octets-decimal values h)
