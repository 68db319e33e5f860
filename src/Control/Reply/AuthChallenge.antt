-- ===== src/Control/Reply/AuthChallenge.antt =====
-- `AuthChallengeResponse` of response/authchallenge.py.
pub mod Laws
use stem.Base.{
  List, [], ◌∷◌, Text, Bytes, Bool, true, false, not, ltb, codes, text_eq, if◌then◌else◌, some,
}
use stem.Base.{Result, ok, err, protocol_error, ◌>>=◌, ◌>>◌, raise_if}
use stem.Util.TorTools.{is_hex_digits, unhexlify}
use stem.Control.Message
use stem.Control.Message.{ControlMessage}
use stem.Control.Line

pub record AuthChallenge : Type 0 where
  pub server_hash : Bytes
  pub server_nonce : Bytes

-- A mapping to sixty-four hexadecimal digits: the bytes, and what follows it.
unfoldable pub read_hash : Text → Text → Result (Bytes × Text)
read_hash key line =
    if Line.is_next_mapping line (some key) false false
    then (do
      (mapping, line) ← Line.pop_mapping line false false false
      raise_if (not (is_hex_digits mapping.1 64)) protocol_error
      bytes ← unhexlify mapping.1
      ok (bytes, line))
    else err protocol_error

-- `AuthChallengeResponse._parse_message`
unfoldable pub parse_message : ControlMessage → Result AuthChallenge
parse_message message =
    if not (Message.is_ok message)
    then err protocol_error
    else if ltb 1 (Message.len message)
    then err protocol_error
    else (do
      line ← Message.first_line message
      (word, line) ← Line.pop line false false
      raise_if (not (text_eq word (codes "AUTHCHALLENGE"))) protocol_error
      (server_hash, line) ← read_hash (codes "SERVERHASH") line
      (server_nonce, line) ← read_hash (codes "SERVERNONCE") line
      ok (record { server_hash = server_hash; server_nonce = server_nonce }))
