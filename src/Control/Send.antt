-- ===== src/Control/Send.antt =====
-- `send_formatting` and `send_message` of socket.py: the framing of what is sent to tor.
pub mod Laws
use stem.Base.{
  ℕ, List, [], ◌∷◌, ◌++◌, Text, Bytes, codes, ◌==◌, ltb, ◌&&◌, if◌then◌else◌, has_char, map, Bool,
  true, false,
}

-- `message.replace('\r\n', '\n')`
unfoldable pub unify_newlines : Text → Text
unify_newlines [] = []
unify_newlines (c ∷ []) = c ∷ []
unify_newlines (c ∷ d ∷ s) =
    let pair = d ∷ unify_newlines s in
    let single = c ∷ unify_newlines (d ∷ s) in if c == 13 && d == 10 then pair else single

-- `message.replace('\n', '\r\n')`
unfoldable pub crlf_newlines : Text → Text
crlf_newlines [] = []
crlf_newlines (c ∷ s) = let rest = crlf_newlines s in if c == 10 then 13 ∷ 10 ∷ rest else c ∷ rest

-- A message of several lines starts with a plus and ends with a line of a period.
unfoldable pub framed : Text → Text
unfolding crlf_newlines has_char
framed message =
    if has_char 10 message
    then b'+' ∷ crlf_newlines message ++ codes "\r\n.\r\n"
    else message ++ codes "\r\n"

unfoldable pub send_formatting : Text → Text
unfolding unify_newlines framed
send_formatting message = framed (unify_newlines message)

-- `_to_bytes` encodes in latin-1, with a question mark for any other character.
unfoldable pub latin_1 : ℕ → ℕ
latin_1 c = if ltb c 256 then c else b'?'

-- The bytes that `send_message` writes.
unfoldable pub send_message : Text → Bool → Bytes
unfolding latin_1 send_formatting
send_message message raw = map latin_1 (if raw then message else send_formatting message)
