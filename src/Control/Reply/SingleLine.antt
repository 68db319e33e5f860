-- ===== src/Control/Reply/SingleLine.antt =====
-- `SingleLineResponse` of response/__init__.py.
use stem.Base.{List, [], ◌∷◌, Text, Bool, true, false, ◌&&◌, codes, text_eq}
use stem.Base.{Result, ok, err, protocol_error, index_error}
use stem.Control.Message
use stem.Control.Message.{ControlMessage}

abbrev pub ok_line : Bool → Text × Text × Text → Bool
ok_line true (code, divider, line) =
    text_eq code (codes "250") && (text_eq divider (codes " ") && text_eq line (codes "OK"))
ok_line false (code, divider, line) = text_eq code (codes "250")

abbrev pub first_ok : Bool → List (Text × Text × Text) → Result Bool
first_ok strict [] = err index_error
first_ok strict (line ∷ lines) = ok (ok_line strict line)

-- `SingleLineResponse.is_ok(strict)`
unfoldable pub is_ok : ControlMessage → Bool → Result Bool
unfolding text_eq Message.content
is_ok message strict = first_ok strict (Message.content message)

-- The code and the text of the only line.
abbrev pub only_line : List (Text × Text × Text) → Result (Text × Text)
only_line ((code, divider, message) ∷ []) = ok (code, message)
only_line _ = err protocol_error

-- `SingleLineResponse._parse_message`
unfoldable pub parse_message : ControlMessage → Result (Text × Text)
unfolding Message.content
parse_message message = only_line (Message.content message)
