-- ===== src/Control/Reply/GetConf.antt =====
-- `GetConfResponse` of response/getconf.py.
pub mod Laws
use stem.Base.{
  ℕ, List, [], ◌∷◌, ◌++◌, Text, Bool, true, false, not, ◌&&◌, codes, text_eq, split_once,
  if◌then◌else◌, Option, none, some,
}
use stem.Base.{Result, ok, err, invalid_arguments, protocol_error, ◌>>=◌}
use stem.Base.Dict
use stem.Control.Message
use stem.Control.Message.{Entry, ControlMessage}
use stem.Control.Line
use stem.Control.Reply.GetInfo.{unrecognized}

-- Each option with its values.
abbrev pub Options : Type 0
Options = List (Text × List Text)

abbrev pub or_none : Option (List Text) → List Text
or_none none = []
or_none (some values) = values

-- `entries[key]`, made if it is not there, with one value more, if there is one.
abbrev pub append_value : Text → Option Text → Options → Options
append_value key none entries = entries
append_value key (some value) entries =
    Dict.set key (or_none (Dict.lookup key entries) ++ (value ∷ [])) entries

unfoldable pub add_value : Text → Option Text → Options → Options
unfolding Dict.set Dict.lookup Dict.has_key
add_value key value entries =
    append_value key value (if Dict.has_key key entries then entries else Dict.set key [] entries)

-- An empty value counts as none.
abbrev pub non_empty : Option Text → Option Text
non_empty none = none
non_empty (some []) = none
non_empty (some (c ∷ s)) = some (c ∷ s)

-- The key and the value of a line.
unfoldable pub read_line : Text → Result (Text × Option Text)
unfolding Line.is_next_mapping Line.pop split_once
read_line line =
    if Line.is_next_mapping line none false false
    then ok (split_once b'=' line)
    else Line.pop line false false >>= λ (p : Text × Text). ok (p.0, none)

unfoldable pub read_options : Options → List Text → Result Options
unfolding read_line add_value
read_options entries [] = ok entries
read_options entries (line ∷ lines) = do
  (key, value) ← read_line line
  read_options (add_value key (non_empty value) entries) lines

-- `content == [('250', ' ', 'OK')]`
abbrev is_ok_line : Text × Text × Text → Bool
is_ok_line (code, divider, line) =
    text_eq code (codes "250") && (text_eq divider (codes " ") && text_eq line (codes "OK"))

abbrev is_only_ok : List (Text × Text × Text) → Bool
is_only_ok [] = false
is_only_ok (e ∷ []) = is_ok_line e
is_only_ok (e ∷ f ∷ es) = false

abbrev pub failure : List Text → Result Options
failure [] = err protocol_error
failure (k ∷ ks) = err (invalid_arguments (k ∷ ks))

abbrev pub unrecognized_key : Text
unrecognized_key = codes "Unrecognized configuration key \""

-- `GetConfResponse._parse_message`: its entries.
unfoldable pub parse_message : ControlMessage → Result Options
parse_message message =
    if is_only_ok (Message.content message)
    then ok []
    else if not (Message.is_ok message)
    then failure (unrecognized unrecognized_key 32 message.parsed_content)
    else read_options [] (Message.lines message)
