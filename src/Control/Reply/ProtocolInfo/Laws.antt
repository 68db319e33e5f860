-- ===== src/Control/Reply/ProtocolInfo/Laws.antt =====
-- A PROTOCOLINFO reply is read back, of response/protocolinfo.py.
use stem.Base.{ℕ, List, [], ◌∷◌, ◌++◌, Text, Bytes, codes, Option, some, pos}
use stem.Util.Decimal.{decimal}
use stem.Version.Parse
use stem.Version.Parse.{Parsed}
use stem.Control.Message
use stem.Control.Message.{Entry, ControlMessage}
use stem.Control.Line
use stem.Control.Line.{backslash}
use stem.Control.Line.Mapping.{quoted_text}
use stem.Control.Reply.ProtocolInfo.Lines.{auth_text}
use stem.Control.Reply.ProtocolInfo.{ProtocolInfo, nothing_read, add_methods, first_decoding}

abbrev pub protocol_text : ℕ → Text
protocol_text n = codes "PROTOCOLINFO" ++ (b' ' ∷ decimal n)

abbrev pub version_text : Text → Text
version_text v = codes "VERSION" ++ (b' ' ∷ codes "Tor" ++ (b'=' ∷ quoted_text v []))

abbrev pub info_lines : ℕ → List Text → Bytes → Text → List Text
info_lines n methods path v =
    protocol_text n
    ∷ (codes "AUTH" ++ (b' ' ∷ auth_text methods path))
    ∷ version_text v
    ∷ codes "OK"
    ∷ []

-- What the reply says.
abbrev pub info_of : (Bytes → Option Text) → ℕ → List Text → Bytes → Parsed → ProtocolInfo
info_of decode_fs n methods path parsed =
    let r = add_methods (record nothing_read { protocol_version = some (pos n) }) methods in
    record r {
      cookie_path = some (first_decoding (decode_fs path) path);
      tor_version = some parsed;
    }
