-- ===== src/Control/Reply/MapAddress.antt =====
-- `MapAddressResponse` of response/mapaddress.py.
pub mod Laws
use stem.Base.{
  ℕ, List, [], ◌∷◌, ◌++◌, Text, Bool, true, false, not, codes, text_eq, split_once, if◌then◌else◌,
  Option, none, some,
}
use stem.Base.{Result, ok, err, invalid_request, operation_failed, protocol_error, ◌>>=◌}
use stem.Base.Dict
use stem.Control.Message
use stem.Control.Message.{ControlMessage}

pub record Mapped : Type 0 where
  pub mapped : List (Text × Text)
  pub failures : List Text

-- Where every mapping failed, the first line decides on the exception.
unfoldable pub rejection : Text → Text → Result Mapped
unfolding text_eq
rejection code message =
    if text_eq code (codes "512")
    then err (invalid_request code message)
    else if text_eq code (codes "451")
    then err (operation_failed code message)
    else err protocol_error

abbrev pub add_mapping : Mapped → Text × Option Text → Result Mapped
add_mapping found (key, none) = err protocol_error
add_mapping found (key, some value) = ok (record found { mapped = Dict.set key value found.mapped })

-- Each line is a mapping if its code is 250, and a failure otherwise.
unfoldable pub read_mappings : Mapped → List (Text × Text × Text) → Result Mapped
unfolding text_eq split_once
read_mappings found [] = ok found
read_mappings found ((code, divider, message) ∷ es) =
    (if text_eq code (codes "250")
      then add_mapping found (split_once b'=' message)
      else ok (record found { failures = found.failures ++ (message ∷ []) }))
    >>= λ found. read_mappings found es

abbrev pub nothing_mapped : Mapped
nothing_mapped = record { mapped = []; failures = [] }

abbrev pub reject_first : List (Text × Text × Text) → Result Mapped
reject_first [] = ok nothing_mapped
reject_first ((code, divider, message) ∷ es) = rejection code message

-- `MapAddressResponse._parse_message`
unfoldable pub parse_message : ControlMessage → Result Mapped
parse_message message =
    if not (Message.is_ok message)
    then reject_first (Message.content message)
    else read_mappings nothing_mapped (Message.content message)
