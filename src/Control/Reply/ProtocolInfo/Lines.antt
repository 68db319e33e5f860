-- ===== src/Control/Reply/ProtocolInfo/Lines.antt =====
-- The lines of a PROTOCOLINFO reply, of response/protocolinfo.py.
use stem.Base.{
  ℕ, ◌<◌, List, [], ◌∷◌, ◌++◌, Text, Bytes, true, false, codes, text_eq, ◌==◌, has_char, join,
  length, lstrip, isdigit, all_digits, Option, some, All, ◌≡◌, refl, arith, is_empty_text, pos,
}
use stem.Base.{ok, ◌>>=◌}
use stem.Base.Pieces.{Lacks, split_on-join}
use stem.Base.Affix.{text_eq_self}
use stem.Util.Decimal.{decimal}
use stem.Util.Decimal.Laws.{int_10-decimal, isdigit-decimal, all_digits-decimal, lstrip-all_digits}
use stem.Version.Parse
use stem.Version.Parse.{Parsed}
use stem.Control.Line
use stem.Control.Line.{quote, backslash, first_word}
use stem.Control.Line.Escape.{escaped_text}
use stem.Control.Line.Quoted.{last_char, Lacks-find_quote}
use stem.Control.Line.Laws.{
  NoSpace, pop-IsWord, pop_mapping-append, is_next_mapping_lem, first_word-NoSpace,
}
use stem.Control.Line.Mapping.{
  quoted_text, is_next_mapping-quoted_text, pop_mapping-quoted_text, pop_mapping-escaped_text,
  escaped_text-IsQuoted,
}
use stem.Control.Reply.ProtocolInfo.{
  ProtocolInfo, add_methods, read_protocol, first_decoding, read_cookie, read_auth, read_version,
  read_line,
}

digits-NoBlank : (s : Text) → all_digits s ≡ true → Lacks b' ' s
unfolding all_digits has_char
digits-NoBlank [] h = refl
digits-NoBlank (c ∷ s) h = ground (arith, digits-NoBlank s)

filled : (s : Text) → isdigit s ≡ true → (is_empty_text s ≡ false) × (0 < length s)
unfolding isdigit
filled [] h = cc h
filled (c ∷ s) h = (refl, omega arith)

read_protocol-decimal :
    (r : ProtocolInfo) (n : ℕ)
    → read_protocol r (decimal n) ≡ ok (record r { protocol_version = some (pos n) })
unfolding read_protocol Line.is_empty
read_protocol-decimal r n =
    let (there, long) = filled (decimal n) (isdigit-decimal n) in
    rw (
      there,
      (pop-IsWord (decimal n) [] (digits-NoBlank (decimal n) (all_digits-decimal n), long)).1,
      int_10-decimal n,
    )

-- The path of the cookie, escaped by tor.
abbrev pub cookie_text : Bytes → Text
cookie_text path = codes "COOKIEFILE" ++ (b'=' ∷ quoted_text (escaped_text path) [])

-- Bytes that tor can write: the last is no backslash, and there is no equals sign up to the first
-- space.
abbrev pub IsPath : Bytes → Type 0
IsPath path =
    All (λ b. b < 256) path
    × ((last_char quote path == backslash) ≡ false)
    × Lacks b'=' (first_word (quoted_text (escaped_text path) []))

abbrev pub auth_text : List Text → Bytes → Text
auth_text methods path =
    codes "METHODS" ++ (b'=' ∷ join (codes ",") methods ++ (b' ' ∷ cookie_text path))

abbrev pub IsMethods : List Text → Type 0
IsMethods methods =
    All (Lacks b',') methods
    × NoSpace (join (codes ",") methods)
    × (0 < length (join (codes ",") methods))
    × Lacks b'=' (join (codes ",") methods)

module _ (decode_fs : Bytes → Option Text) where
  read_cookie-cookie_text :
      (r : ProtocolInfo) (path : Bytes)
      → IsPath path
      → read_cookie decode_fs r (cookie_text path)
        ≡ ok (record r { cookie_path = some (first_decoding (decode_fs path) path) })
  unfolding read_cookie has_char
  read_cookie-cookie_text r path h =
      let quoted = escaped_text-IsQuoted path h.0 h.1 in
      rw (
        is_next_mapping-quoted_text true b'C' (codes "OOKIEFILE") (escaped_text path) []
            (refl, (refl, (refl, (refl, (refl, (refl, (refl, (refl, (refl, (refl, tt)))))))))) refl
            h.2 quoted,
        pop_mapping-escaped_text (codes "COOKIEFILE") path []
            (refl, (refl, (refl, (refl, (refl, (refl, (refl, (refl, (refl, (refl, tt))))))))))
            (omega arith) h.2 h.0 quoted,
      )

  read_auth-auth_text :
      (r : ProtocolInfo) (m : Text) (ms : List Text) (path : Bytes)
      → IsMethods (m ∷ ms)
      → IsPath path
      → read_auth decode_fs r (auth_text (m ∷ ms) path)
        ≡ ok (record (add_methods r (m ∷ ms)) {
          cookie_path = some (first_decoding (decode_fs path) path);
        })
  unfolding read_auth lstrip
  read_auth-auth_text r m ms path hm hp =
      let text = join (codes ",") (m ∷ ms) in
      let rest = cookie_text path in
      rw
        (
          is_next_mapping_lem b'M' (codes "ETHODS") (text ++ (b' ' ∷ rest))
              (refl, (refl, (refl, (refl, (refl, (refl, (refl, tt)))))))
              (rw (first_word-NoSpace text rest hm.1) hm.3),
          pop_mapping-append (codes "METHODS") text rest
              (refl, (refl, (refl, (refl, (refl, (refl, (refl, tt))))))) hm.1 (omega arith) hm.2
              hm.3,
          split_on-join b',' m ms hm.0,
        )
        (read_cookie-cookie_text (add_methods r (m ∷ ms)) path hp)

  read_version-quoted_text :
      (r : ProtocolInfo) (v : Text) (parsed : Parsed)
      → Parse.init v ≡ ok parsed
      → Lacks quote v
      → Lacks b'=' (first_word (quoted_text v []))
      → read_version decode_fs r (codes "Tor" ++ (b'=' ∷ quoted_text v []))
        ≡ ok (record r { tor_version = some parsed })
  unfolding read_version has_char
  read_version-quoted_text r v parsed e lacks equals = rw (
    is_next_mapping-quoted_text false b'T' (codes "or") v [] (refl, (refl, (refl, tt))) refl equals
        (Lacks-find_quote false quote v lacks, refl),
    pop_mapping-quoted_text (codes "Tor") v [] (refl, (refl, (refl, tt))) (omega arith) equals
        lacks,
    e,
  )

  -- The three lines by their first words.
  pub protocol_line :
      (r : ProtocolInfo) (n : ℕ)
      → (Line.pop (codes "PROTOCOLINFO" ++ (b' ' ∷ decimal n)) false false
          >>= λ (entry : Text × Text). read_line decode_fs r entry)
        ≡ ok (record r { protocol_version = some (pos n) })
  unfolding read_line has_char
  protocol_line r n =
      rw
        (
          (pop-IsWord (codes "PROTOCOLINFO") (decimal n) (refl, omega arith)).0,
          lstrip-all_digits (decimal n) (all_digits-decimal n),
          text_eq_self (codes "PROTOCOLINFO"),
        )
        (read_protocol-decimal r n)

  pub auth_line :
      (r : ProtocolInfo) (m : Text) (ms : List Text) (path : Bytes)
      → IsMethods (m ∷ ms)
      → IsPath path
      → (Line.pop (codes "AUTH" ++ (b' ' ∷ auth_text (m ∷ ms) path)) false false
          >>= λ (entry : Text × Text). read_line decode_fs r entry)
        ≡ ok (record (add_methods r (m ∷ ms)) {
          cookie_path = some (first_decoding (decode_fs path) path);
        })
  unfolding read_line has_char text_eq lstrip
  auth_line r m ms path hm hp =
      rw ((pop-IsWord (codes "AUTH") (auth_text (m ∷ ms) path) (refl, omega arith)).0)
        (read_auth-auth_text r m ms path hm hp)

  pub version_line :
      (r : ProtocolInfo) (v : Text) (parsed : Parsed)
      → Parse.init v ≡ ok parsed
      → Lacks quote v
      → Lacks b'=' (first_word (quoted_text v []))
      → (Line.pop (codes "VERSION" ++ (b' ' ∷ codes "Tor" ++ (b'=' ∷ quoted_text v []))) false false
          >>= λ (entry : Text × Text). read_line decode_fs r entry)
        ≡ ok (record r { tor_version = some parsed })
  unfolding read_line has_char text_eq lstrip
  version_line r v parsed e lacks equals =
      rw
        ((pop-IsWord (codes "VERSION") (codes "Tor" ++ (b'=' ∷ quoted_text v []))
          (refl, omega arith)).0)
        (read_version-quoted_text r v parsed e lacks equals)
