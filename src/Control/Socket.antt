-- ===== src/Control/Socket.antt =====
-- `recv_message`, `recv_message_from_bytes_io` and `send_formatting` of socket.py.
pub mod Wire
pub mod Laws
pub mod Sound
pub mod Stream
pub mod Failure
use stem.Base.{
  ℕ, ◌+◌, List, [], ◌∷◌, ◌++◌, map, Text, Bytes, Bool, true, false, ◌&&◌, ◌||◌, codes, leb, ◌==◌,
  if◌then◌else◌, take, drop, has_char, text_eq, ends_with, starts_with, cons_piece, without_last,
  is_empty_text, not,
}
use stem.Base.{
  Error, Result, ok, err, value_error, attribute_error, os_error, protocol_error, socket_closed,
  ◌>>=◌,
}
use stem.Base.Utf8.{decode_replace, is_utf8}
use stem.Control.Message
use stem.Control.Message.{Entry, ControlMessage}

-- What a call of the reader's `readline` does: it gives the bytes up to the next line feed, none at
-- the end of the input, or it raises.
pub data Read : Type 0 where
  line : Bytes → Read
  raised : Error → Read

abbrev pub newline : ℕ
newline = 10

abbrev pub crlf : Bytes
crlf = 13 ∷ 10 ∷ []

-- The lines of a byte stream, each with its line feed.
unfoldable pub read_lines : Bytes → List Bytes
read_lines [] = []
read_lines (c ∷ s) =
    let rest = read_lines s in if c == newline then (c ∷ []) ∷ rest else cons_piece c rest

unfoldable pub is_alnum : ℕ → Bool
is_alnum c =
    (leb b'a' c && leb c b'z') || ((leb b'A' c && leb c b'Z') || (leb b'0' c && leb c b'9'))

unfoldable pub is_divider : ℕ → Bool
is_divider c = c == b'-' || (c == b'+' || c == b' ')

-- `MESSAGE_PREFIX.match(line)`
unfoldable pub message_prefix : Bytes → Bool
unfolding is_alnum is_divider
message_prefix (a ∷ b ∷ c ∷ d ∷ s) = is_alnum a && (is_alnum b && (is_alnum c && is_divider d))
message_prefix s = false

-- What is raised at the end of `recv_message`'s calls of `readline`.
unfoldable pub read_failure : Error → Error
read_failure attribute_error = socket_closed
read_failure os_error = socket_closed
read_failure value_error = socket_closed
read_failure e = e

-- The same within a data block, where only a socket's own exceptions are handled. What was read
-- before is decoded for the log message: bytes that are no UTF-8 raise there.
unfoldable pub data_failure : Bytes → Error → Error
data_failure raw os_error = if is_utf8 raw then socket_closed else value_error
data_failure raw e = e

-- The content is decoded for the log message here too.
unfoldable pub malformed : Bytes → Error
malformed content = if is_utf8 content then protocol_error else value_error

-- `line[:-2]`
unfoldable pub strip_crlf : Bytes → Bytes
unfolding without_last
strip_crlf s = without_last (without_last s)

-- Lines that start with a period are escaped by a second period.
unfoldable pub unescape : Bytes → Bytes
unfolding starts_with
unescape s = if starts_with (codes "..") s then drop 1 s else s

-- The checks of a reply line, and its parts.
unfoldable pub reply_line : Bytes → Result Entry
reply_line [] = err socket_closed
reply_line (c ∷ s) =
    let whole = c ∷ s in
    if not (message_prefix whole)
    then err (malformed whole)
    else if not (ends_with crlf whole)
    then err (malformed whole)
    else ok (record {
      status_code = decode_replace (take 3 whole);
      divider = decode_replace (take 1 (drop 3 whole));
      content = strip_crlf (drop 4 whole);
    })

-- A message, and what the reader gives after it.
abbrev pub Received : Type 0
Received = Result (ControlMessage × List Read)

abbrev pub finish : List Entry → Bytes → List Read → Received
finish parsed raw reads = do message ← Message.init parsed raw; ok (message, reads)

-- The body of the loop once a line is taken apart. `more` reads the next line and `block` a data
-- block that begins with its content.
unfoldable pub receive :
    Bool
    → List Entry
    → Bytes
    → Bytes
    → List Read
    → Entry
    → (List Entry → Bytes → Received)
    → (List Entry → Bytes → Received)
    → Received
unfolding text_eq
receive first parsed raw whole reads entry more block =
    if first && text_eq entry.divider (codes " ")
    then finish (entry ∷ []) whole reads
    else (let parsed = if first then [] else parsed in
        let raw = (if first then [] else raw) ++ whole in
        if text_eq entry.divider (codes "-")
        then more (parsed ++ (entry ∷ [])) raw
        else if text_eq entry.divider (codes " ")
        then finish (parsed ++ (entry ∷ [])) raw reads
        else if text_eq entry.divider (codes "+")
        then block parsed raw
        else err protocol_error)

unfoldable mutual
  -- The loop of `recv_message`, with its variables.
  pub recv_loop : Bool → List Entry → Bytes → List Read → Received
  recv_loop first parsed raw [] = err socket_closed
  recv_loop first parsed raw (raised e ∷ reads) = err (read_failure e)
  recv_loop first parsed raw (line whole ∷ reads) = reply_line whole >>= λ entry.
      receive first parsed raw whole reads entry (λ es r. recv_loop false es r reads)
        (λ es r. data_loop es entry r entry.content reads)

  -- The loop within a data block, and what comes after it.
  pub data_loop : List Entry → Entry → Bytes → Bytes → List Read → Received
  data_loop parsed entry raw block [] = err (malformed raw)
  data_loop parsed entry raw block (raised e ∷ reads) = err (data_failure raw e)
  data_loop parsed entry raw block (line whole ∷ reads) =
      let done =
        recv_loop false (parsed ++ (record entry { content = block } ∷ [])) (raw ++ whole) reads in
      let more =
        data_loop parsed entry (raw ++ whole) (block ++ (newline ∷ unescape (strip_crlf whole)))
          reads in
      if not (ends_with crlf whole)
      then err (malformed (raw ++ whole))
      else if text_eq whole (codes ".\r\n")
      then done
      else more

unfoldable pub recv_message : List Read → Received
unfolding recv_loop
recv_message reads = recv_loop true [] [] reads

-- The same from a byte stream.
unfoldable pub recv_message_from_bytes_io : Bytes → Received
unfolding recv_message read_lines
recv_message_from_bytes_io content = recv_message (map line (read_lines content))
