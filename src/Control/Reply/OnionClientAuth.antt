-- ===== src/Control/Reply/OnionClientAuth.antt =====
-- `OnionClientAuthViewResponse` of response/onion_client_auth.py, with the `HiddenServiceCredential`
-- of control.py.
use stem.Base.{
  List, [], ◌∷◌, Text, not, codes, text_eq, starts_with, split_on, split_once, if◌then◌else◌,
  Option, none, some,
}
use stem.Base.{Result, ok, err, protocol_error, index_error, ◌>>=◌, ◌>>◌, raise_if}
use stem.Base.Dict
use stem.Control.Message
use stem.Control.Message.{ControlMessage}

pub record HiddenServiceCredential : Type 0 where
  pub service_id : Text
  pub private_key : Text
  pub key_type : Text
  pub client_name : Option Text
  pub flags : List Text

pub record ClientAuth : Type 0 where
  pub requested : Option Text
  pub credentials : List (Text × HiddenServiceCredential)

-- `attr` is `key=value`; other keys are ignored.
abbrev pub set_attribute :
    HiddenServiceCredential → Text × Option Text → Result HiddenServiceCredential
set_attribute credential (attr, none) = err protocol_error
set_attribute credential (key, some value) = ok (
    if text_eq key (codes "ClientName")
    then record credential { client_name = some value }
    else if text_eq key (codes "Flags")
    then record credential { flags = split_on b',' value }
    else credential)

unfoldable pub set_attributes : HiddenServiceCredential → List Text → Result HiddenServiceCredential
unfolding split_once split_on text_eq
set_attributes credential [] = ok credential
set_attributes credential (attr ∷ attrs) = do
  credential ← set_attribute credential (split_once b'=' attr)
  set_attributes credential attrs

abbrev pub credential_of : Text → Text × Option Text → Result HiddenServiceCredential
credential_of service_id (key, none) = err protocol_error
credential_of service_id (key_type, some private_key) = ok (record {
  service_id = service_id;
  private_key = private_key;
  key_type = key_type;
  client_name = none;
  flags = [];
})

-- A credential from the parts of its line. The loop over the attributes starts with the key, which
-- has to have an equals sign too.
unfoldable pub read_credential : List Text → Result HiddenServiceCredential
unfolding set_attributes
read_credential (word ∷ service_id ∷ key ∷ attrs) = do
  raise_if (not (text_eq word (codes "CLIENT"))) protocol_error
  credential ← credential_of service_id (split_once b':' key)
  set_attributes credential (key ∷ attrs)
read_credential _ = err protocol_error

-- The lines between the first and the last.
unfoldable pub read_credentials :
    List (Text × HiddenServiceCredential)
    → List Text
    → Result (List (Text × HiddenServiceCredential))
unfolding read_credential
read_credentials found [] = ok found
read_credentials found (line ∷ []) = ok found
read_credentials found (line ∷ next ∷ lines) = do
  credential ← read_credential (split_on b' ' line)
  read_credentials (Dict.set credential.service_id credential found) (next ∷ lines)

abbrev pub second : List Text → Option Text
second (a ∷ b ∷ pieces) = some b
second _ = none

abbrev pub read_lines : List Text → Result ClientAuth
read_lines [] = err index_error
read_lines (first ∷ lines) = do
  raise_if (not (starts_with (codes "ONION_CLIENT_AUTH_VIEW") first)) protocol_error
  credentials ← read_credentials [] lines
  ok (record { requested = second (split_on b' ' first); credentials = credentials })

-- `OnionClientAuthViewResponse._parse_message`
unfoldable pub parse_message : ControlMessage → Result ClientAuth
unfolding read_credentials starts_with split_on
parse_message message =
    if not (Message.is_ok message) then err protocol_error else read_lines (Message.lines message)
