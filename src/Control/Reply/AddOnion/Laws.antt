-- ===== src/Control/Reply/AddOnion/Laws.antt =====
-- The parts of an ADD_ONION reply are read back, of response/add_onion.py.
use stem.Base.{
  List, [], ◌∷◌, ◌++◌, map, Text, true, codes, split_once, starts_with, Option, none, some, All,
  ◌≡◌, refl, ap, join,
}
use stem.Base.{ok}
use stem.Base.Pieces.{Lacks}
use stem.Base.Dict
use stem.Base.Utf8.{IsAscii}
use stem.Control.Message
use stem.Control.Message.{ControlMessage}
use stem.Control.Message.Laws.{ok_entry, message_lines, successful}
use stem.Control.Line.Laws.{split_once-piece}
use stem.Control.Reply.AddOnion.{AddOnion, no_service, read_service, read_line, parse_message}

abbrev pub key_lines : Option (Text × Text) → List Text
key_lines none = []
key_lines (some (key_type, key)) = (codes "PrivateKey=" ++ (key_type ++ (b':' ∷ key))) ∷ []

abbrev pub client_lines : List (Text × Text) → List Text
client_lines [] = codes "OK" ∷ []
client_lines ((username, credential) ∷ clients) =
    (codes "ClientAuth=" ++ (username ++ (b':' ∷ credential))) ∷ client_lines clients

-- The service, its key if tor has made one, its clients, and the last line.
abbrev pub service_lines : Text → Option (Text × Text) → List (Text × Text) → List Text
service_lines id key clients = (codes "ServiceID=" ++ id) ∷ (key_lines key ++ client_lines clients)

abbrev pub key_of : Option (Text × Text) → Option Text
key_of none = none
key_of (some (key_type, key)) = some key

abbrev pub type_of : Option (Text × Text) → Option Text
type_of none = none
type_of (some (key_type, key)) = some key_type

abbrev pub IsKey : Option (Text × Text) → Type 0
IsKey none = Unit {0}
IsKey (some (key_type, key)) = Lacks b':' key_type

read_clients :
    (r : AddOnion) (clients : List (Text × Text))
    → All (λ (c : Text × Text). Lacks b':' c.0) clients
    → read_service r (client_lines clients)
      ≡ ok (record r { client_auth = Dict.set_all r.client_auth clients })
unfolding read_service read_line split_once
read_clients r [] h = refl
read_clients r ((username, credential) ∷ clients) h =
    rw (split_once-piece b':' username credential h.0) (
      read_clients (record r { client_auth = Dict.set username credential r.client_auth }) clients
        h.1)

read_key :
    (id : Text) (key : Option (Text × Text)) (lines : List Text)
    → IsKey key
    → read_service (record no_service { service_id = some id }) (key_lines key ++ lines)
      ≡ read_service
          (record no_service {
            service_id = some id;
            private_key = key_of key;
            private_key_type = type_of key;
          })
          lines
unfolding read_service read_line split_once
read_key id none lines h = refl
read_key id (some (key_type, key)) lines h = rw (split_once-piece b':' key_type key h)

read_lines_lem :
    (id : Text) (key : Option (Text × Text)) (clients : List (Text × Text))
    → IsKey key
    → All (λ (c : Text × Text). Lacks b':' c.0) clients
    → read_service no_service (service_lines id key clients)
      ≡ ok (record {
        service_id = some id;
        private_key = key_of key;
        private_key_type = type_of key;
        client_auth = Dict.set_all [] clients;
      })
unfolding read_service read_line split_once
read_lines_lem id key clients hk hc =
    rw (read_key id key (client_lines clients) hk) (read_clients _ clients hc)

starts_join :
    (id : Text) (lines : List Text)
    → starts_with (codes "ServiceID=") (join (codes "\n") ((codes "ServiceID=" ++ id) ∷ lines))
      ≡ true
unfolding starts_with join
starts_join id [] = refl
starts_join id (l ∷ lines) = refl

to_str_lem :
    (lines : List Text) (raw : Text)
    → All IsAscii lines
    → Message.to_str (record { parsed_content = map ok_entry lines; raw_content = raw })
      ≡ join (codes "\n") lines
unfolding Message.to_str
to_str_lem lines raw h = ap (join (codes "\n")) (message_lines lines raw h)

-- The service id, the private key with its type, if there is one, and the clients of an ADD_ONION
-- reply of ASCII lines are those that its lines were made from, where the last credential of a client
-- counts, if neither the key's type nor a client's name has a colon.
pub parse_message-service_lines :
    (id : Text) (key : Option (Text × Text)) (clients : List (Text × Text)) (raw : Text)
    → All IsAscii (service_lines id key clients)
    → IsKey key
    → All (λ (c : Text × Text). Lacks b':' c.0) clients
    → parse_message
        (record { parsed_content = map ok_entry (service_lines id key clients); raw_content = raw })
      ≡ ok (record {
        service_id = some id;
        private_key = key_of key;
        private_key_type = type_of key;
        client_auth = Dict.set_all [] clients;
      })
unfolding parse_message Message.is_ok
parse_message-service_lines id key clients raw ascii hk hc =
    rw
      (
        successful (codes "ServiceID=" ++ id) (key_lines key ++ client_lines clients),
        to_str_lem (service_lines id key clients) raw ascii,
        starts_join id (key_lines key ++ client_lines clients),
        message_lines (service_lines id key clients) raw ascii,
      )
      (read_lines_lem id key clients hk hc)
