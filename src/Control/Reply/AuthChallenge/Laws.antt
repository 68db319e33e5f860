-- ===== src/Control/Reply/AuthChallenge/Laws.antt =====
-- The hash and the nonce of an AUTHCHALLENGE reply are read back, of response/authchallenge.py.
use stem.Base.{
  ℕ, ◌*◌, ◌<◌, [], ◌∷◌, ◌++◌, Text, Bytes, true, false, codes, has_char, length, lstrip, isdigit,
  digits_value, All, ◌≡◌, refl, arith, All-append, ltb,
}
use stem.Base.{ok}
use stem.Base.Pieces.{Lacks}
use stem.Base.Affix.{text_eq_self}
use stem.Base.Utf8.{IsAscii, decode_replace-IsAscii}
use stem.Util.TorTools.{is_hex_digits}
use stem.Util.TorTools.Laws.{
  hexlify, Plain, hexlify-Plain, length-hexlify, unhexlify-hexlify, is_hex_digits-hexlify,
  hexlify-IsAscii,
}
use stem.Control.Message
use stem.Control.Message.{ControlMessage}
use stem.Control.Line
use stem.Control.Line.Laws.{
  NoSpace, pop-IsWord, pop_mapping-append, pop_mapping-last, is_next_mapping_lem,
  first_word-NoSpace, first_word_last,
}
use stem.Control.Reply.AuthChallenge.{read_hash, parse_message}

Plain-NoSpace : (s : Text) → All Plain s → NoSpace s
Plain-NoSpace [] h = tt
Plain-NoSpace (c ∷ s) h = (h.0.0, Plain-NoSpace s h.1)

Plain-Lacks : (s : Text) → All Plain s → Lacks b'=' s
unfolding has_char
Plain-Lacks [] h = refl
Plain-Lacks (c ∷ s) h = rw h.0.5 (Plain-Lacks s h.1)

-- Thirty-two bytes.
abbrev pub IsHash : Bytes → Type 0
IsHash s = All (λ b. b < 256) s × (length s ≡ 32)

hash_digits : (s : Bytes) → IsHash s → is_hex_digits (hexlify s) 64 ≡ true
hash_digits [] h = absurd (omega (arith, h.1))
hash_digits (b ∷ s) h =
    let e : 2 * length (b ∷ s) ≡ 64 = omega (arith, h.1) in rw (← e) (is_hex_digits-hexlify b s h.0)

hash_length : (s : Bytes) → IsHash s → 0 < length (hexlify s)
hash_length s h = omega (arith, length-hexlify s, h.1)

-- A hash that is followed by something, and one that is not.
read_hash-append :
    (c : ℕ) (k : Text) (s : Bytes) (rest : Text)
    → NoSpace (c ∷ k)
    → IsHash s
    → read_hash (c ∷ k) (c ∷ k ++ (b'=' ∷ hexlify s ++ (b' ' ∷ rest))) ≡ ok (s, lstrip rest)
unfolding read_hash
read_hash-append c k s rest hk h =
    let plain = hexlify-Plain s h.0 in
    let blank = Plain-NoSpace (hexlify s) plain in
    let lacks = Plain-Lacks (hexlify s) plain in
    rw (
      is_next_mapping_lem c k (hexlify s ++ (b' ' ∷ rest)) hk
          (rw (first_word-NoSpace (hexlify s) rest blank) lacks),
      pop_mapping-append (c ∷ k) (hexlify s) rest hk blank (omega arith) (hash_length s h) lacks,
      hash_digits s h,
      unhexlify-hexlify s h.0,
    )

read_hash-last :
    (c : ℕ) (k : Text) (s : Bytes)
    → NoSpace (c ∷ k)
    → IsHash s
    → read_hash (c ∷ k) (c ∷ k ++ (b'=' ∷ hexlify s)) ≡ ok (s, [])
unfolding read_hash
read_hash-last c k s hk h =
    let plain = hexlify-Plain s h.0 in
    let blank = Plain-NoSpace (hexlify s) plain in
    let lacks = Plain-Lacks (hexlify s) plain in
    rw (
      is_next_mapping_lem c k (hexlify s) hk (rw (first_word_last (hexlify s) blank) lacks),
      pop_mapping-last (c ∷ k) (hexlify s) hk blank (omega arith) (hash_length s h) lacks,
      hash_digits s h,
      unhexlify-hexlify s h.0,
    )

abbrev pub nonce_text : Bytes → Text
nonce_text nonce = codes "SERVERNONCE" ++ (b'=' ∷ hexlify nonce)

abbrev pub challenge_text : Bytes → Bytes → Text
challenge_text hash nonce =
    codes "AUTHCHALLENGE"
    ++ (b' ' ∷ codes "SERVERHASH" ++ (b'=' ∷ hexlify hash ++ (b' ' ∷ nonce_text nonce)))

challenge-IsAscii :
    (hash nonce : Bytes) → IsHash hash → IsHash nonce → IsAscii (challenge_text hash nonce)
challenge-IsAscii hash nonce hh hn =
    let mine = hexlify-IsAscii nonce hn.0 in
    let end : IsAscii (b' ' ∷ nonce_text nonce) =
      All-append (λ (c : ℕ). c < 128) (codes " SERVERNONCE=") (hexlify nonce) (omega arith) mine in
    All-append (λ (c : ℕ). c < 128) (codes "AUTHCHALLENGE SERVERHASH=") _ (omega arith)
      (All-append (λ (c : ℕ). c < 128) (hexlify hash) (b' ' ∷ nonce_text nonce)
        (hexlify-IsAscii hash hh.0) end)

pop_word :
    (hash nonce : Bytes)
    → Line.pop (challenge_text hash nonce) false false
      ≡ ok (
        codes "AUTHCHALLENGE",
        codes "SERVERHASH" ++ (b'=' ∷ hexlify hash ++ (b' ' ∷ nonce_text nonce)),
      )
unfolding has_char lstrip
pop_word hash nonce = (pop-IsWord (codes "AUTHCHALLENGE") _ (refl, omega arith)).0

hash_read :
    (hash nonce : Bytes)
    → IsHash hash
    → read_hash
        (codes "SERVERHASH")
        (codes "SERVERHASH" ++ (b'=' ∷ hexlify hash ++ (b' ' ∷ nonce_text nonce)))
      ≡ ok (hash, nonce_text nonce)
unfolding lstrip
hash_read hash nonce h =
    read_hash-append b'S' (codes "ERVERHASH") hash (nonce_text nonce)
      (refl, (refl, (refl, (refl, (refl, (refl, (refl, (refl, (refl, (refl, tt)))))))))) h

nonce_read :
    (nonce : Bytes)
    → IsHash nonce
    → read_hash (codes "SERVERNONCE") (nonce_text nonce) ≡ ok (nonce, [])
nonce_read nonce h =
    read_hash-last b'S' (codes "ERVERNONCE") nonce
      (refl, (refl, (refl, (refl, (refl, (refl, (refl, (refl, (refl, (refl, (refl, tt))))))))))) h

reply : Text → Bytes → Bytes → Text → ControlMessage
reply divider hash nonce raw = record {
  parsed_content =
      record { status_code = codes "250"; divider = divider; content = challenge_text hash nonce }
      ∷ [];
  raw_content = raw;
}

line_read :
    (hash nonce : Bytes) (divider raw : Text)
    → IsHash hash
    → IsHash nonce
    → Message.first_line (reply divider hash nonce raw) ≡ ok (challenge_text hash nonce)
unfolding reply Message.first_line Message.lines
line_read hash nonce divider raw hh hn =
    rw (decode_replace-IsAscii (challenge_text hash nonce) (challenge-IsAscii hash nonce hh hn))

is_ok-reply :
    (hash nonce : Bytes) (divider raw : Text) → Message.is_ok (reply divider hash nonce raw) ≡ true
unfolding reply Message.is_ok Message.any_2xx isdigit digits_value
is_ok-reply hash nonce divider raw = refl

one_line :
    (hash nonce : Bytes) (divider raw : Text)
    → ltb 1 (Message.len (reply divider hash nonce raw)) ≡ false
unfolding reply
one_line hash nonce divider raw = refl

parsed :
    (hash nonce : Bytes) (divider raw : Text)
    → IsHash hash
    → IsHash nonce
    → parse_message (reply divider hash nonce raw)
      ≡ ok (record { server_hash = hash; server_nonce = nonce })
unfolding parse_message
parsed hash nonce divider raw hh hn = rw (
  is_ok-reply hash nonce divider raw,
  one_line hash nonce divider raw,
  line_read hash nonce divider raw hh hn,
  pop_word hash nonce,
  text_eq_self (codes "AUTHCHALLENGE"),
  hash_read hash nonce hh,
  nonce_read nonce hn,
)

-- The hash and the nonce of an AUTHCHALLENGE reply, of thirty-two bytes each, are those that its
-- line was written with.
pub parse_message-challenge_text :
    (hash nonce : Bytes) (divider raw : Text)
    → IsHash hash
    → IsHash nonce
    → parse_message (record {
      parsed_content =
          record {
            status_code = codes "250";
            divider = divider;
            content = challenge_text hash nonce;
          }
          ∷ [];
      raw_content = raw;
    })
      ≡ ok (record { server_hash = hash; server_nonce = nonce })
parse_message-challenge_text hash nonce divider raw hh hn =
    unfold reply in parsed hash nonce divider raw hh hn
