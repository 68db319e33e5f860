-- ===== src/Control/Reply/GetInfo.antt =====
-- `GetInfoResponse` of response/getinfo.py.
pub mod Laws
pub mod Failure
use stem.Base.{
  ℕ, List, [], ◌∷◌, ◌++◌, map, Text, Bytes, Bool, true, false, not, ◌&&◌, ◌||◌, codes, text_eq,
  has_char, starts_with, ends_with, without_last, drop, split_once, if◌then◌else◌, ltb, Option,
  none, some, is_empty_text,
}
use stem.Base.{Result, ok, err, invalid_arguments, operation_failed, protocol_error, ◌>>=◌}
use stem.Base.Dict
use stem.Base.Utf8.{decode_replace}
use stem.Control.Message
use stem.Control.Message.{Entry, ControlMessage}

-- `line[start:-1]` of a line that starts with a prefix of `start` characters and ends with a quote.
unfoldable pub quoted_keyword : Text → ℕ → Text → List Text
unfolding starts_with ends_with without_last
quoted_keyword prefix start line =
    if starts_with prefix line && ends_with (codes "\"") line
    then drop start (without_last line) ∷ []
    else []

-- The keywords of the 552 lines.
unfoldable pub unrecognized : Text → ℕ → List Entry → List Text
unfolding quoted_keyword text_eq
unrecognized prefix start [] = []
unrecognized prefix start (e ∷ es) =
    (if text_eq e.status_code (codes "552")
      then quoted_keyword prefix start (decode_replace e.content)
      else [])
    ++ unrecognized prefix start es

-- The last code that is not 250, with its line.
unfoldable pub last_error : Option (Text × Text) → List Entry → Option (Text × Text)
unfolding text_eq
last_error found [] = found
last_error found (e ∷ es) =
    last_error
      (if text_eq e.status_code (codes "250")
        then found
        else some (e.status_code, decode_replace e.content))
      es

-- An empty code does not count.
abbrev pub raised_for : Option (Text × Text) → Result (List (Text × Bytes))
raised_for none = err protocol_error
raised_for (some ([], message)) = err protocol_error
raised_for (some (c ∷ code, message)) = err (operation_failed (c ∷ code) message)

abbrev pub failure : List Text → Option (Text × Text) → Result (List (Text × Bytes))
failure (k ∷ ks) error = err (invalid_arguments (k ∷ ks))
failure [] error = raised_for error

-- A value of several lines starts with a line feed.
unfoldable pub multiline : Bytes → Result Bytes
unfolding has_char
multiline [] = ok []
multiline (c ∷ value) =
    if has_char 10 (c ∷ value)
    then (if starts_with (codes "\n") (c ∷ value) then ok value else err protocol_error)
    else ok (c ∷ value)

abbrev pub with_value : Bytes × Option Bytes → List (Text × Bytes) → Result (List (Text × Bytes))
with_value (key, none) entries = err protocol_error
with_value (key, some value) entries = do
  value ← multiline value
  ok (Dict.set (decode_replace key) value entries)

-- The lines in front of the last one, each `KEY=VALUE`.
unfoldable pub read_entries : List (Text × Bytes) → List Entry → Result (List (Text × Bytes))
unfolding split_once
read_entries entries [] = ok entries
read_entries entries (e ∷ []) = ok entries
read_entries entries (e ∷ f ∷ es) = do
  entries ← with_value (split_once b'=' e.content) entries
  read_entries entries (f ∷ es)

-- Whether the last line is `OK`.
unfoldable pub ends_ok : List Entry → Bool
unfolding text_eq
ends_ok [] = false
ends_ok (e ∷ []) = text_eq e.content (codes "OK")
ends_ok (e ∷ f ∷ es) = ends_ok (f ∷ es)

abbrev pub unrecognized_key : Text
unrecognized_key = codes "Unrecognized key \""

-- `GetInfoResponse._parse_message`: its entries.
unfoldable pub parse_message : ControlMessage → Result (List (Text × Bytes))
unfolding Message.is_ok ends_ok unrecognized last_error read_entries
parse_message message =
    if not (Message.is_ok message) || not (ends_ok message.parsed_content)
    then failure (unrecognized unrecognized_key 18 message.parsed_content)
        (last_error none message.parsed_content)
    else read_entries [] message.parsed_content

-- Every key of the first is one of the second.
unfoldable pub all_within : List Text → List Text → Bool
unfolding text_eq
all_within [] ks = true
all_within (j ∷ js) ks = any_of ks && all_within js ks
  where
    any_of : List Text → Bool
    any_of [] = false
    any_of (k ∷ ks) = text_eq j k || any_of ks

-- `_assert_matches(params)`
unfoldable pub assert_matches : List (Text × Bytes) → List Text → Result (Unit {0})
unfolding all_within
assert_matches entries params =
    let keys = map (λ (e : Text × Bytes). e.0) entries in
    if all_within params keys && all_within keys params then ok tt else err protocol_error
