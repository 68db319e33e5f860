-- ===== src/Control/Reply/ProtocolInfo.antt =====
-- `ProtocolInfoResponse` of response/protocolinfo.py. The encoding of file names is a parameter:
-- `decode_fs` is `path.decode(sys.getfilesystemencoding())`, `none` for a ValueError.
pub mod Lines
pub mod Laws
use stem.Base.{
  List, [], ◌∷◌, ◌++◌, Text, Bytes, Bool, true, false, not, ◌||◌, codes, text_eq, starts_with,
  split_on, if◌then◌else◌, Option, none, some, ℤ,
}
use stem.Base.{
  Error, Result, ok, err, value_error, protocol_error, index_error, ◌>>=◌, ◌>>◌, raise_if,
}
use stem.Base.Utf8.{is_utf8, decode_replace}
use stem.Util.Decimal.{int_10}
use stem.Version.Parse
use stem.Version.Parse.{Parsed}
use stem.Control.Message
use stem.Control.Message.{ControlMessage}
use stem.Control.Line
use stem.Control.Reply.GetInfo.{ends_ok}

pub data AuthMethod : Type 0 where
  no_auth password cookie safecookie unknown : AuthMethod

pub record ProtocolInfo : Type 0 where
  pub protocol_version : Option ℤ
  pub tor_version : Option Parsed
  pub auth_methods : List AuthMethod
  pub unknown_auth_methods : List Text
  pub cookie_path : Option Text

abbrev pub nothing_read : ProtocolInfo
nothing_read = record {
  protocol_version = none;
  tor_version = none;
  auth_methods = [];
  unknown_auth_methods = [];
  cookie_path = none;
}

abbrev pub is_unknown : AuthMethod → Bool
is_unknown unknown = true
is_unknown _ = false

unfoldable pub has_unknown : List AuthMethod → Bool
has_unknown [] = false
has_unknown (m ∷ ms) = is_unknown m || has_unknown ms

-- One method more; those that are not recognized are listed apart, with one entry for all of them.
unfoldable pub add_method : ProtocolInfo → Text → ProtocolInfo
unfolding has_unknown
add_method r method =
    if text_eq method (codes "NULL")
    then record r { auth_methods = r.auth_methods ++ (no_auth ∷ []) }
    else if text_eq method (codes "HASHEDPASSWORD")
    then record r { auth_methods = r.auth_methods ++ (password ∷ []) }
    else if text_eq method (codes "COOKIE")
    then record r { auth_methods = r.auth_methods ++ (cookie ∷ []) }
    else if text_eq method (codes "SAFECOOKIE")
    then record r { auth_methods = r.auth_methods ++ (safecookie ∷ []) }
    else record r {
      unknown_auth_methods = r.unknown_auth_methods ++ (method ∷ []);
      auth_methods =
          if has_unknown r.auth_methods then r.auth_methods else r.auth_methods ++ (unknown ∷ []);
    }

unfoldable pub add_methods : ProtocolInfo → List Text → ProtocolInfo
unfolding add_method
add_methods r [] = r
add_methods r (m ∷ ms) = add_methods (add_method r m) ms

-- A ValueError becomes a protocol error.
abbrev pub or_protocol_error {ℓ} : {A : Type ℓ} → Result A → Result A
or_protocol_error (ok a) = ok a
or_protocol_error (err value_error) = err protocol_error
or_protocol_error (err e) = err e

-- The first line: the version of the protocol.
unfoldable pub read_protocol : ProtocolInfo → Text → Result ProtocolInfo
read_protocol r line = do
  raise_if (Line.is_empty line) protocol_error
  n ← or_protocol_error (Line.pop line false false >>= λ (p : Text × Text). int_10 p.0)
  ok (record r { protocol_version = some n })

abbrev pub first_decoding : Option Text → Bytes → Text
first_decoding (some path) bytes = path
first_decoding none bytes = if is_utf8 bytes then decode_replace bytes else bytes

module _ (decode_fs : Bytes → Option Text) where
  -- The path of the cookie: in the encoding of the file system, else in UTF-8, else in latin-1, which
  -- never fails.
  unfoldable pub read_cookie : ProtocolInfo → Text → Result ProtocolInfo
  read_cookie r line =
      if Line.is_next_mapping line (some (codes "COOKIEFILE")) true true
      then (do
        (mapping, line) ← Line.pop_mapping line true true true
        ok (record r { cookie_path = some (first_decoding (decode_fs mapping.1) mapping.1) }))
      else ok r

  -- The methods, and the path of the cookie if there is one.
  unfoldable pub read_auth : ProtocolInfo → Text → Result ProtocolInfo
  unfolding add_methods split_on
  read_auth r line =
      if not (Line.is_next_mapping line (some (codes "METHODS")) false false)
      then err protocol_error
      else (do
        (mapping, line) ← Line.pop_mapping line false false false
        read_cookie (add_methods r (split_on b',' mapping.1)) line)

  -- The version of tor.
  unfoldable pub read_version : ProtocolInfo → Text → Result ProtocolInfo
  read_version r line =
      if not (Line.is_next_mapping line (some (codes "Tor")) true false)
      then err protocol_error
      else (do
        v ← or_protocol_error (
            Line.pop_mapping line true false false >>= λ (p : (Text × Text) × Text).
            Parse.init p.0.1)
        ok (record r { tor_version = some v }))

  -- One line by its first word; other lines are ignored.
  unfoldable pub read_line : ProtocolInfo → Text × Text → Result ProtocolInfo
  read_line r (word, line) =
      if text_eq word (codes "PROTOCOLINFO")
      then read_protocol r line
      else if text_eq word (codes "AUTH")
      then read_auth r line
      else if text_eq word (codes "VERSION")
      then read_version r line
      else ok r

  -- The lines in front of the last one.
  unfoldable pub read_info : ProtocolInfo → List Text → Result ProtocolInfo
  read_info r [] = ok r
  read_info r (line ∷ []) = ok r
  read_info r (line ∷ next ∷ lines) = do
    entry ← Line.pop line false false
    r ← read_line r entry
    read_info r (next ∷ lines)

  -- The first line that is left once the last one is taken off.
  abbrev pub check_first : List Text → Result (Unit {0})
  check_first [] = err index_error
  check_first (line ∷ []) = err index_error
  check_first (line ∷ next ∷ lines) =
      raise_if (not (starts_with (codes "PROTOCOLINFO") line)) protocol_error

  -- `ProtocolInfoResponse._parse_message`
  unfoldable pub parse_message : ControlMessage → Result ProtocolInfo
  parse_message message =
      if not (Message.is_ok message) || not (ends_ok message.parsed_content)
      then err protocol_error
      else (check_first (Message.lines message) >> read_info nothing_read (Message.lines message))
