-- ===== src/Control/Reply/GetInfo/Laws.antt =====
-- From the bytes of a GETINFO reply to its entries: socket.py and response/getinfo.py together.
use stem.Base.{
  List, [], ◌∷◌, ◌++◌, map, Text, Bytes, true, codes, has_char, starts_with, split_once, join, All,
  isdigit, digits_value, ◌≡◌, refl, ap, ◌∙◌, append_assoc,
}
use stem.Base.{ok, ◌>>=◌}
use stem.Base.Pieces.{Lacks, Lacks-append}
use stem.Base.Dict
use stem.Base.Utf8.{IsAscii, decode_replace-IsAscii}
use stem.Control.Message
use stem.Control.Message.{Entry, ControlMessage}
use stem.Control.Socket.{recv_message_from_bytes_io, Read, newline, is_alnum}
use stem.Control.Socket.Wire.{
  IsCode, Part, plain, data_block, reply_lines, concat, entry_of, block_content,
}
use stem.Control.Line.Laws.{split_once-piece}
use stem.Control.Socket.Stream.{IsPart, recv_message_from_bytes_io-concat}
use stem.Control.Reply.GetInfo.{parse_message, read_entries, with_value, multiline, ends_ok}

-- A value of one line, or of several, as a list of them.
pub data Value : Type 0 where
  one_line : Bytes → Value
  many_lines : List Bytes → Value

abbrev pub value_of : Value → Bytes
value_of (one_line v) = v
value_of (many_lines ls) = join (codes "\n") ls

abbrev pub part_of : Text × Value → Part
part_of (key, one_line v) = plain (codes "250") (key ++ (b'=' ∷ v))
part_of (key, many_lines ls) = data_block (codes "250") (key ++ (b'=' ∷ [])) ls

abbrev pub IsValue : Value → Type 0
IsValue (one_line v) = Lacks 10 v
IsValue (many_lines ls) = All (Lacks 10) ls

-- Keys are ASCII, without a line feed and an equals sign; values have no line feed of their own.
abbrev pub IsEntry : Text × Value → Type 0
IsEntry (key, v) = IsAscii key × (Lacks 10 key × Lacks b'=' key) × IsValue v

abbrev pub pair_of : Text × Value → Text × Bytes
pair_of (key, v) = (key, value_of v)

abbrev ok_entry : Entry
ok_entry = record { status_code = codes "250"; divider = codes " "; content = codes "OK" }

-- What a block contains begins with its first line, and has each other line behind a line feed.
block_content-append :
    (s t : Bytes) (ls : List Bytes) → block_content (s ++ t) ls ≡ s ++ block_content t ls
block_content-append s t [] = refl
block_content-append s t (l ∷ ls) = rw append_assoc (block_content-append s (t ++ (newline ∷ l)) ls)

block_content-join :
    (l : Bytes) (ls : List Bytes) → block_content [] (l ∷ ls) ≡ 10 ∷ join (codes "\n") (l ∷ ls)
unfolding join
block_content-join l [] = refl
block_content-join l (m ∷ ls) =
    block_content-append (newline ∷ l) (newline ∷ m) ls
    ∙ ap (λ t. 10 ∷ l ++ t) (block_content-join m ls)

multiline-block : (ls : List Bytes) → multiline (block_content [] ls) ≡ ok (join (codes "\n") ls)
unfolding multiline join has_char starts_with
multiline-block [] = refl
multiline-block (l ∷ ls) = rw (block_content-join l ls)

multiline-Lacks : (v : Bytes) → Lacks 10 v → multiline v ≡ ok v
unfolding multiline
multiline-Lacks [] h = refl
multiline-Lacks (c ∷ v) h = rw h

read_value :
    (key value v : Bytes) (d : List (Text × Bytes))
    → IsAscii key
    → Lacks b'=' key
    → multiline value ≡ ok v
    → with_value (split_once b'=' (key ++ (b'=' ∷ value))) d ≡ ok (Dict.set key v d)
read_value key value v d ascii lacks e =
    rw (split_once-piece b'=' key value lacks, e, decode_replace-IsAscii key ascii)

-- The content of the entry of a pair.
read_entry :
    (e : Text × Value) (d : List (Text × Bytes))
    → IsEntry e
    → with_value (split_once b'=' (entry_of (part_of e)).content) d
      ≡ ok (Dict.set e.0 (value_of e.1) d)
read_entry (key, one_line v) d h = read_value key v v d h.0 h.1.1 (multiline-Lacks v h.2)
read_entry (key, many_lines ls) d h =
    rw (block_content-append key (b'=' ∷ []) ls, block_content-append (b'=' ∷ []) [] ls)
      (read_value key (block_content [] ls) (join (codes "\n") ls) d h.0 h.1.1 (multiline-block ls))

entries_of : List (Text × Value) → List Entry
entries_of [] = ok_entry ∷ []
entries_of (e ∷ es) = entry_of (part_of e) ∷ entries_of es

read_entries-entries_of :
    (es : List (Text × Value)) (d : List (Text × Bytes))
    → All IsEntry es
    → read_entries d (entries_of es) ≡ ok (Dict.set_all d (map pair_of es))
unfolding read_entries entries_of
read_entries-entries_of [] d h = refl
read_entries-entries_of (e ∷ []) d h = rw (read_entry e d h.0)
read_entries-entries_of (e ∷ f ∷ es) d h =
    rw (read_entry e d h.0) (read_entries-entries_of (f ∷ es) (Dict.set e.0 (value_of e.1) d) h.1)

ends_ok-entries_of : (es : List (Text × Value)) → ends_ok (entries_of es) ≡ true
unfolding ends_ok entries_of
ends_ok-entries_of [] = refl
ends_ok-entries_of (e ∷ []) = refl
ends_ok-entries_of (e ∷ f ∷ es) = ends_ok-entries_of (f ∷ es)

any_2xx-entries_of : (es : List (Text × Value)) → Message.any_2xx (entries_of es) ≡ true
unfolding entries_of Message.any_2xx isdigit digits_value
any_2xx-entries_of [] = refl
any_2xx-entries_of ((key, one_line v) ∷ es) = refl
any_2xx-entries_of ((key, many_lines ls) ∷ es) = refl

entries_of-append :
    (es : List (Text × Value)) → map entry_of (map part_of es) ++ (ok_entry ∷ []) ≡ entries_of es
unfolding entries_of
entries_of-append [] = refl
entries_of-append (e ∷ es) = ap (λ t. entry_of (part_of e) ∷ t) (entries_of-append es)

parse_entries :
    (es : List (Text × Value)) (raw : Bytes)
    → All IsEntry es
    → parse_message (record { parsed_content = entries_of es; raw_content = raw })
      ≡ ok (Dict.set_all [] (map pair_of es))
unfolding parse_message Message.is_ok
parse_entries es raw h =
    rw (any_2xx-entries_of es, ends_ok-entries_of es) (read_entries-entries_of es [] h)

-- What tor writes for the entries.
pub info_reply : List (Text × Value) → Bytes
info_reply es = concat (reply_lines (map part_of es) (codes "250") (codes "OK"))

success-IsCode : IsCode (codes "250")
unfolding is_alnum
success-IsCode = record { a = b'2'; b = b'5'; c = b'0'; is_code = refl; alnum = (refl, refl, refl) }

part_of-IsPart : (e : Text × Value) → IsEntry e → IsPart (part_of e)
unfolding has_char
part_of-IsPart (key, one_line v) h = (success-IsCode, Lacks-append 10 key (b'=' ∷ v) h.1.0 h.2)
part_of-IsPart (key, many_lines ls) h =
    (success-IsCode, Lacks-append 10 key (b'=' ∷ []) h.1.0 refl, h.2)

parts-IsPart : (es : List (Text × Value)) → All IsEntry es → All IsPart (map part_of es)
parts-IsPart [] h = tt
parts-IsPart (e ∷ es) h = (part_of-IsPart e h.0, parts-IsPart es h.1)

-- From the bytes of a GETINFO reply with anything behind them: the entries are the keys with their
-- values, of one line or of several, where the last value of a key counts.
pub parse_message-info_reply :
    (es : List (Text × Value)) (rest : Bytes)
    → All IsEntry es
    → (recv_message_from_bytes_io (info_reply es ++ rest) >>= λ (r : ControlMessage × List Read).
        parse_message r.0)
      ≡ ok (Dict.set_all [] (map pair_of es))
unfolding info_reply has_char
parse_message-info_reply es rest h =
    rw
      (
        recv_message_from_bytes_io-concat (map part_of es) (codes "250") (codes "OK") rest
            (parts-IsPart es h) success-IsCode refl,
        entries_of-append es,
      )
      (parse_entries es (info_reply es) h)
