-- ===== src/Base/Utf8.antt =====
-- UTF-8 as Python decodes it: each ill-formed part of the bytes, as long as it can be, is one error.
use Prim.Native.Nat.{ℕ, zero, suc, ◌+◌, ◌-◌, ◌*◌, ◌/◌, ◌%◌, ◌<◌}
use mathlib.Core.Path.{◌≡◌, refl, ap}
use mathlib.Core.Bool.{Bool, true, false, ◌&&◌}
use mathlib.Core.List.{List, [], ◌∷◌, ◌++◌, map}
use mathlib.Core.Option.{Option, none, some}
use native.Mathlib.Omega.{arith}
use stem.Base.Tests.{ltb, leb, ◌==◌, if◌then◌else◌}
use stem.Base.Lists.{All}
use stem.Base.Errors.{Result, ok, err, value_error, ◌>>=◌}
use stem.Base.Strings.{Bytes, Text}

-- How many bytes have yet to come, the range of the next one, and the bits read.
record Partial : Type 0 where
  more : ℕ
  low : ℕ
  high : ℕ
  bits : ℕ

-- `none` stands for an ill-formed part.
abbrev Decoded : Type 0
Decoded = List (Option ℕ) × Option Partial

abbrev await : ℕ → ℕ → ℕ → ℕ → Decoded
await more low high bits = ([], some (record { more = more; low = low; high = high; bits = bits }))

-- The first byte of a character.
start : ℕ → Decoded
start b =
    if ltb b 0x80
    then (some b ∷ [], none)
    else if leb 0xC2 b && leb b 0xDF
    then await 1 0x80 0xBF (b - 0xC0)
    else if b == 0xE0
    then await 2 0xA0 0xBF 0
    else if b == 0xED
    then await 2 0x80 0x9F 0xD
    else if leb 0xE1 b && leb b 0xEF
    then await 2 0x80 0xBF (b - 0xE0)
    else if b == 0xF0
    then await 3 0x90 0xBF 0
    else if leb 0xF1 b && leb b 0xF3
    then await 3 0x80 0xBF (b - 0xF0)
    else if b == 0xF4
    then await 3 0x80 0x8F 4
    else (none ∷ [], none)

abbrev continue : ℕ → ℕ → Decoded
continue zero bits = ([], none)
continue (suc zero) bits = (some bits ∷ [], none)
continue (suc (suc more)) bits = await (suc more) 0x80 0xBF bits

step : Option Partial → ℕ → Decoded
unfolding start
step none b = start b
step (some p) b =
    if leb p.low b && leb b p.high
    then continue p.more (p.bits * 64 + (b - 0x80))
    else (none ∷ (start b).0, (start b).1)

decode_from : Option Partial → Bytes → List (Option ℕ)
unfolding step
decode_from none [] = []
decode_from (some p) [] = none ∷ []
decode_from state (b ∷ s) = let (out, state) = step state b in out ++ decode_from state s

abbrev replaced : Option ℕ → ℕ
replaced none = 0xFFFD
replaced (some c) = c

-- `s.decode('utf-8', 'replace')`
unfoldable pub decode_replace : Bytes → Text
unfolding decode_from
decode_replace s = map replaced (decode_from none s)

all_some : List (Option ℕ) → Bool
all_some [] = true
all_some (none ∷ cs) = false
all_some (some c ∷ cs) = all_some cs

-- Whether `s.decode('utf-8')` raises no UnicodeDecodeError, which is a ValueError.
unfoldable pub is_utf8 : Bytes → Bool
unfolding decode_from all_some
is_utf8 s = all_some (decode_from none s)

abbrev pub IsAscii : Bytes → Type 0
IsAscii s = All (λ c. c < 128) s

decode_from-IsAscii : (s : Bytes) → IsAscii s → decode_from none s ≡ map some s
unfolding decode_from
decode_from-IsAscii [] h = refl
decode_from-IsAscii (c ∷ s) h = ground (arith, decode_from-IsAscii s)

replaced_back : (s : Bytes) → map replaced (map some s) ≡ s
replaced_back [] = refl
replaced_back (c ∷ s) = ap (λ t. c ∷ t) (replaced_back s)

all_some-map : (s : Bytes) → all_some (map some s) ≡ true
unfolding all_some
all_some-map [] = refl
all_some-map (c ∷ s) = all_some-map s

pub decode_replace-IsAscii : (s : Bytes) → IsAscii s → decode_replace s ≡ s
unfolding decode_replace
decode_replace-IsAscii s h = rw (decode_from-IsAscii s h) (replaced_back s)

pub is_utf8-IsAscii : (s : Bytes) → IsAscii s → is_utf8 s ≡ true
unfolding is_utf8
is_utf8-IsAscii s h = rw (decode_from-IsAscii s h) (all_some-map s)

-- `s.encode('utf-8')`: a surrogate raises a UnicodeEncodeError, which is a ValueError.
encode_char : ℕ → Result Bytes
encode_char c =
    if ltb c 0x80
    then ok (c ∷ [])
    else if ltb c 0x800
    then ok ((0xC0 + c / 64) ∷ (0x80 + c % 64) ∷ [])
    else if leb 0xD800 c && leb c 0xDFFF
    then err value_error
    else if ltb c 0x10000
    then ok ((0xE0 + c / 4096) ∷ (0x80 + c / 64 % 64) ∷ (0x80 + c % 64) ∷ [])
    else ok
        ((0xF0 + c / 262144) ∷ (0x80 + c / 4096 % 64) ∷ (0x80 + c / 64 % 64) ∷ (0x80 + c % 64) ∷ [])

unfoldable pub utf8_encode : Text → Result Bytes
unfolding encode_char
utf8_encode [] = ok []
utf8_encode (c ∷ s) = do front ← encode_char c; rest ← utf8_encode s; ok (front ++ rest)

pub utf8_encode-IsAscii : (s : Text) → IsAscii s → utf8_encode s ≡ ok s
unfolding utf8_encode
utf8_encode-IsAscii [] h = refl
utf8_encode-IsAscii (c ∷ s) h =
    let low : ltb c 128 ≡ true = ground (arith, h.0) in rw (low, utf8_encode-IsAscii s h.1)

euro :
    utf8_encode (0x20AC ∷ 0x1F600 ∷ []) ≡ ok (0xE2 ∷ 0x82 ∷ 0xAC ∷ 0xF0 ∷ 0x9F ∷ 0x98 ∷ 0x80 ∷ [])
unfolding utf8_encode
euro = refl

two_bytes : decode_replace (0xC3 ∷ 0xA9 ∷ 0x41 ∷ []) ≡ 0xE9 ∷ 0x41 ∷ []
unfolding decode_replace
two_bytes = refl

cut_short : decode_replace (0xE2 ∷ 0x82 ∷ 0x41 ∷ 0xFF ∷ []) ≡ 0xFFFD ∷ 0x41 ∷ 0xFFFD ∷ []
unfolding decode_replace
cut_short = refl

four_bytes : decode_replace (0xF0 ∷ 0x9F ∷ 0x98 ∷ 0x80 ∷ []) ≡ 0x1F600 ∷ []
unfolding decode_replace
four_bytes = refl

surrogate : is_utf8 (0xED ∷ 0xA0 ∷ 0x80 ∷ []) ≡ false
unfolding is_utf8
surrogate = refl
