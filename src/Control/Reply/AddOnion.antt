-- ===== src/Control/Reply/AddOnion.antt =====
-- `AddOnionResponse` of response/add_onion.py.
pub mod Laws
use stem.Base.{
  ℕ, List, [], ◌∷◌, Text, Bool, true, false, not, codes, text_eq, split_once, starts_with,
  if◌then◌else◌, Option, none, some,
}
use stem.Base.{Result, ok, err, protocol_error, ◌>>=◌}
use stem.Base.Dict
use stem.Control.Message
use stem.Control.Message.{ControlMessage}

pub record AddOnion : Type 0 where
  pub service_id : Option Text
  pub private_key : Option Text
  pub private_key_type : Option Text
  pub client_auth : List (Text × Text)

abbrev pub set_private_key : AddOnion → Text × Option Text → Result AddOnion
set_private_key r (value, none) = err protocol_error
set_private_key r (key_type, some key) =
    ok (record r { private_key_type = some key_type; private_key = some key })

abbrev pub add_client : AddOnion → Text × Option Text → Result AddOnion
add_client r (value, none) = err protocol_error
add_client r (username, some credential) =
    ok (record r { client_auth = Dict.set username credential r.client_auth })

-- A line `KEY=VALUE`; lines without an equals sign and other keys are ignored.
unfoldable pub read_line : AddOnion → Text × Option Text → Result AddOnion
unfolding text_eq split_once
read_line r (line, none) = ok r
read_line r (key, some value) =
    if text_eq key (codes "ServiceID")
    then ok (record r { service_id = some value })
    else if text_eq key (codes "PrivateKey")
    then set_private_key r (split_once b':' value)
    else if text_eq key (codes "ClientAuth")
    then add_client r (split_once b':' value)
    else ok r

unfoldable pub read_service : AddOnion → List Text → Result AddOnion
read_service r [] = ok r
read_service r (line ∷ lines) = do r ← read_line r (split_once b'=' line); read_service r lines

abbrev pub no_service : AddOnion
no_service = record {
  service_id = none;
  private_key = none;
  private_key_type = none;
  client_auth = [];
}

-- `AddOnionResponse._parse_message`
unfoldable pub parse_message : ControlMessage → Result AddOnion
parse_message message =
    if not (Message.is_ok message)
    then err protocol_error
    else if not (starts_with (codes "ServiceID=") (Message.to_str message))
    then err protocol_error
    else read_service no_service (Message.lines message)
