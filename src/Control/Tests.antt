-- ===== src/Control/Tests.antt =====
-- Runs of the control socket and of the lines of a reply on concrete input, and the theorems at
-- concrete input.
use stem.Base.{
  List, [], ◌∷◌, ◌++◌, codes, ends_with, text_eq, Bytes, true, false, ◌≡◌, refl, has_char, lstrip,
  map, arith, join, starts_with,
}
use stem.Base.{Error, ok, err, socket_closed, value_error, protocol_error}
use stem.Base.Utf8.{decode_replace, is_utf8, utf8_encode}
use stem.Control.Message
use stem.Control.Message.{ControlMessage}
use stem.Control.Socket.{
  Read, line, raised, crlf, recv_message_from_bytes_io, recv_message, reply_line, receive,
  strip_crlf, unescape, malformed, message_prefix, read_lines, is_alnum,
}
use stem.Control.Socket.Wire.{
  IsCode, Part, plain, data_block, reply_lines, parts_lines, concat, entry_of,
}
use stem.Control.Socket.Stream.{recv_message_from_bytes_io-concat}
use stem.Control.Socket.Sound.{IsReply, recv_message-IsReply}
use stem.Control.Socket.Failure.{IsUnframed, IsSocketFailure, recv_message-broken_off}
use stem.Control.Send.{send_formatting, send_message}
use stem.Control.Send.Laws.{read_command, read_command-send_formatting}
use stem.Control.Line
use stem.Control.Line.Escape.{escaped_text}
use stem.Control.Line.Laws.{pop_mapping-append}
use stem.Control.Line.Quoted.{pop-escaped_text}

abbrev info_reply : Bytes
info_reply =
    codes "250-version=0.2"
    ++ (crlf
        ++ (codes "250+config="
            ++ (crlf
                ++ (codes "..a"
                    ++ (crlf
                        ++ (codes "b"
                            ++ (crlf ++ (codes "." ++ (crlf ++ (codes "250 OK" ++ crlf))))))))))

abbrev info_message : ControlMessage
info_message = record {
  parsed_content =
      record { status_code = codes "250"; divider = codes "-"; content = codes "version=0.2" }
      ∷ record { status_code = codes "250"; divider = codes "+"; content = codes "config=\n.a\nb" }
      ∷ record { status_code = codes "250"; divider = codes " "; content = codes "OK" }
      ∷ [];
  raw_content = info_reply;
}

info_received :
    recv_message_from_bytes_io (info_reply ++ codes "650 x")
    ≡ ok (info_message, line (codes "650 x") ∷ [])
unfolding recv_message_from_bytes_io recv_message Message.init reply_line receive ends_with
    strip_crlf unescape text_eq malformed message_prefix decode_replace
info_received = refl

success-IsCode : IsCode (codes "250")
unfolding is_alnum
success-IsCode = record { a = b'2'; b = b'5'; c = b'0'; is_code = refl; alnum = (refl, refl, refl) }

abbrev info_parts : List Part
info_parts =
    plain (codes "250") (codes "version=0.2")
    ∷ data_block (codes "250") (codes "config=") (codes ".a" ∷ codes "b" ∷ [])
    ∷ []

recv_message_from_bytes_io-concat_example :
    recv_message_from_bytes_io
      (concat (reply_lines info_parts (codes "250") (codes "OK")) ++ codes "650 x")
    ≡ ok (
      record {
        parsed_content =
            map entry_of info_parts
            ++ (record { status_code = codes "250"; divider = codes " "; content = codes "OK" }
                ∷ []);
        raw_content = concat (reply_lines info_parts (codes "250") (codes "OK"));
      },
      map line (read_lines (codes "650 x")),
    )
unfolding has_char
recv_message_from_bytes_io-concat_example =
    recv_message_from_bytes_io-concat info_parts (codes "250") (codes "OK") (codes "650 x")
      ((success-IsCode, refl), ((success-IsCode, refl, (refl, (refl, tt))), tt)) success-IsCode refl

abbrev two_lines : List Read
two_lines = line (codes "250-a" ++ crlf) ∷ line (codes "250 OK" ++ crlf) ∷ line (codes "650 x") ∷ []

abbrev two_lines_message : ControlMessage
two_lines_message = record {
  parsed_content =
      record { status_code = codes "250"; divider = codes "-"; content = codes "a" }
      ∷ record { status_code = codes "250"; divider = codes " "; content = codes "OK" }
      ∷ [];
  raw_content = codes "250-a" ++ (crlf ++ (codes "250 OK" ++ crlf));
}

recv_message-IsReply_example : IsReply [] [] two_lines two_lines_message (line (codes "650 x") ∷ [])
unfolding recv_message Message.init reply_line receive ends_with strip_crlf text_eq malformed
    message_prefix decode_replace
recv_message-IsReply_example = recv_message-IsReply two_lines refl

recv_message-broken_off_example :
    (recv_message (map line (parts_lines info_parts) ++ []) ≡ err socket_closed)
    × (recv_message (map line (parts_lines info_parts) ++ (line [] ∷ [])) ≡ err socket_closed)
    × ((e : Error)
        → IsSocketFailure e
        → recv_message (map line (parts_lines info_parts) ++ (raised e ∷ [])) ≡ err socket_closed)
    × ((whole : Bytes)
        → IsUnframed whole
        → is_utf8 whole ≡ true
        → recv_message (map line (parts_lines info_parts) ++ (line whole ∷ []))
          ≡ err protocol_error)
    × ((whole : Bytes)
        → IsUnframed whole
        → is_utf8 whole ≡ false
        → recv_message (map line (parts_lines info_parts) ++ (line whole ∷ [])) ≡ err value_error)
recv_message-broken_off_example =
    recv_message-broken_off info_parts [] (success-IsCode, (success-IsCode, tt))

-- A line that is no UTF-8 is no protocol error.
undecodable : recv_message (line (0xFF ∷ []) ∷ []) ≡ err value_error
unfolding recv_message reply_line message_prefix malformed is_utf8
undecodable = refl

read_command-send_formatting_example :
    read_command (
      read_lines (
        send_formatting (join (codes "\n") (codes "LOADCONF" ∷ codes "ORPort 1" ∷ []))
        ++ codes "QUIT"))
    ≡ (codes "LOADCONF", codes "ORPort 1" ∷ [], read_lines (codes "QUIT"))
unfolding has_char starts_with
read_command-send_formatting_example =
    read_command-send_formatting (codes "LOADCONF") (codes "ORPort 1") [] (codes "QUIT")
      ((refl, refl), ((refl, refl), tt)) (refl, tt)

sent : send_message (codes "GETINFO version") false ≡ codes "GETINFO version" ++ crlf
unfolding send_message has_char
sent = refl

pop-escaped_text_example :
    Line.pop (b'"' ∷ escaped_text (codes "a\"b\n") ++ (b'"' ∷ codes " c")) true true
    ≡ ok (decode_replace (codes "a\"b\n"), lstrip (codes " c"))
pop-escaped_text_example = pop-escaped_text (codes "a\"b\n") (codes " c") (omega arith) refl

pop_mapping-append_example :
    Line.pop_mapping
      (codes "KEY" ++ (b'=' ∷ codes "value" ++ (b' ' ∷ codes " more")))
      false
      false
      false
    ≡ ok ((codes "KEY", codes "value"), lstrip (codes " more"))
unfolding has_char
pop_mapping-append_example =
    pop_mapping-append (codes "KEY") (codes "value") (codes " more") (refl, (refl, (refl, tt)))
      (refl, (refl, (refl, (refl, (refl, tt))))) (omega arith) (omega arith) refl

escaped_popped :
    Line.pop (codes "\"this has a \\\" and \\\\ in it\" foo=bar") true true
    ≡ ok (codes "this has a \" and \\ in it", codes "foo=bar")
unfolding Line.pop utf8_encode
escaped_popped = refl
