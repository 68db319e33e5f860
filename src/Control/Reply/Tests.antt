-- ===== src/Control/Reply/Tests.antt =====
-- The replies on concrete input.
use stem.Base.{
  Bytes, none, replicate, isdigit, digits_value, List, [], ◌∷◌, ◌++◌, codes, Text, ◌≡◌, refl,
  has_char, map, arith, text_eq, join, Option, some,
}
use stem.Base.{ok, err, ◌>>=◌, invalid_arguments, operation_failed}
use stem.Base.Dict
use stem.Version.Parse
use stem.Version.Parse.{Parsed}
use stem.Control.Reply.AuthChallenge
use stem.Control.Reply.AuthChallenge.Laws.{challenge_text, parse_message-challenge_text}
use stem.Control.Reply.ProtocolInfo
use stem.Control.Message.Laws.{ok_entry}
use stem.Control.Message
use stem.Control.Message.{ControlMessage}
use stem.Control.Socket.{Read, recv_message_from_bytes_io}
use stem.Control.Reply.GetInfo
use stem.Control.Reply.GetInfo.Laws.{
  Value, one_line, many_lines, info_reply, parse_message-info_reply,
}
use stem.Control.Reply.GetInfo.Failure.{unknown_key, parse_message-failure}
use stem.Control.Reply.GetConf
use stem.Control.Reply.GetConf.Laws.{option_entry, mentions, values_of, parse_message-option_entry}
use stem.Control.Reply.MapAddress
use stem.Control.Reply.MapAddress.Laws.{
  Outcome, success, failed, any_success, mappings, messages, parse_message-mappings,
}
use stem.Control.Reply.AddOnion
use stem.Control.Reply.AddOnion.Laws.{service_lines, parse_message-service_lines}

abbrev info : List (Text × Value)
info =
    (codes "version", one_line (codes "0.2"))
    ∷ (codes "text", many_lines (codes ".a" ∷ [] ∷ []))
    ∷ []

parse_message-info_reply_example :
    (recv_message_from_bytes_io (info_reply info ++ codes "650")
      >>= λ (r : ControlMessage × List Read). GetInfo.parse_message r.0)
    ≡ ok (Dict.set_all [] ((codes "version", codes "0.2") ∷ (codes "text", codes ".a\n") ∷ []))
unfolding has_char join
parse_message-info_reply_example =
    parse_message-info_reply info (codes "650")
      ((omega arith, (refl, refl), refl), ((omega arith, (refl, refl), (refl, (refl, tt))), tt))

parse_message-failure_example :
    (GetInfo.parse_message (record {
      parsed_content = map (unknown_key GetInfo.unrecognized_key) ((codes " ", codes "blah") ∷ []);
      raw_content = [];
    })
      ≡ err (invalid_arguments (codes "blah" ∷ [])))
    × (GetInfo.parse_message (record {
      parsed_content =
          record { status_code = codes "551"; divider = codes " "; content = codes "no" } ∷ [];
      raw_content = [];
    })
        ≡ err (operation_failed (codes "551") (codes "no")))
unfolding Message.is_2xx isdigit digits_value text_eq
parse_message-failure_example =
    parse_message-failure (codes " ", codes "blah") [] (codes "551") (codes " ") (codes "no") []
      (omega arith) (omega arith) (omega arith) refl refl

abbrev option : Text → Text → Text × Text × Option Text
option key value = (codes "-", key, some value)

parse_message-option_entry_example :
    (d : GetConf.Options) × (GetConf.parse_message (record {
      parsed_content =
          map option_entry (option (codes "A") (codes "x y") ∷ option (codes "A") [] ∷ []);
      raw_content = [];
    })
      ≡ ok d)
    × (Dict.lookup (codes "A") d ≡ some (codes "x y" ∷ []))
unfolding has_char text_eq mentions values_of
parse_message-option_entry_example =
    parse_message-option_entry (option (codes "A") (codes "x y")) (option (codes "A") [] ∷ []) []
      (codes "A")
      (
        (((refl, tt), refl, omega arith), omega arith),
        ((((refl, tt), refl, omega arith), omega arith), tt),
      )
      refl

abbrev outcomes : List (Text × Outcome)
outcomes =
    (codes "-", failed (codes "512") (codes "bad"))
    ∷ (codes " ", success (codes "1.2.3.4") (codes "tor"))
    ∷ []

parse_message-mappings_example :
    MapAddress.parse_message
      (record { parsed_content = map MapAddress.Laws.entry_of outcomes; raw_content = [] })
    ≡ ok (record {
      mapped = Dict.set_all [] ((codes "1.2.3.4", codes "tor") ∷ []);
      failures = codes "bad" ∷ [];
    })
unfolding text_eq has_char any_success
parse_message-mappings_example =
    parse_message-mappings outcomes [] ((omega arith, refl), ((omega arith, omega arith, refl), tt))
      refl

parse_message-service_lines_example :
    AddOnion.parse_message (record {
      parsed_content = map ok_entry (
          service_lines
            (codes "abc")
            (some (codes "RSA1024", codes "MII"))
            ((codes "bob", codes "l4") ∷ []));
      raw_content = [];
    })
    ≡ ok (record {
      service_id = some (codes "abc");
      private_key = some (codes "MII");
      private_key_type = some (codes "RSA1024");
      client_auth = Dict.set_all [] ((codes "bob", codes "l4") ∷ []);
    })
unfolding has_char
parse_message-service_lines_example =
    parse_message-service_lines (codes "abc") (some (codes "RSA1024", codes "MII"))
      ((codes "bob", codes "l4") ∷ []) [] (omega arith) refl (refl, tt)

abbrev hash : Bytes
hash = replicate 32 171

abbrev nonce : Bytes
nonce = replicate 32 10

parse_message-challenge_text_example :
    AuthChallenge.parse_message (record {
      parsed_content =
          record {
            status_code = codes "250";
            divider = codes " ";
            content = challenge_text hash nonce;
          }
          ∷ [];
      raw_content = [];
    })
    ≡ ok (record { server_hash = hash; server_nonce = nonce })
parse_message-challenge_text_example =
    parse_message-challenge_text hash nonce (codes " ") [] (omega arith, refl) (omega arith, refl)

abbrev tor_version : Parsed
tor_version = record {
  version_str = codes "0.4.5.1-dev";
  version = record { major = 0; minor = 4; micro = 5; patch = some 1; status = some (codes "dev") };
  all_extra = [];
  extra = none;
  git_commit = none;
}

-- File names that are ASCII.
abbrev no_encoding : Bytes → Option Text
no_encoding path = none
