-- ===== src/Control/Message.antt =====
-- `ControlMessage` of response/__init__.py: what was read from the control socket.
pub mod Laws
use stem.Base.{
  ℕ, List, [], ◌∷◌, Text, Bytes, Bool, false, map, ◌&&◌, ◌||◌, codes, leb, isdigit, digits_value,
  ltb, join, length,
}
use stem.Base.{Result, ok, err, value_error, index_error}
use stem.Base.Utf8.{decode_replace}

pub record Entry : Type 0 where
  pub status_code : Text
  pub divider : Text
  pub content : Bytes

pub record ControlMessage : Type 0 where
  pub parsed_content : List Entry
  pub raw_content : Bytes

-- Messages are never empty.
unfoldable pub init : List Entry → Bytes → Result ControlMessage
init [] raw_content = err value_error
init (e ∷ es) raw_content = ok (record { parsed_content = e ∷ es; raw_content = raw_content })

-- A code between 200 and 299.
unfoldable pub is_2xx : Text → Bool
is_2xx code = isdigit code && (leb 200 (digits_value 0 code) && ltb (digits_value 0 code) 300)

unfoldable pub any_2xx : List Entry → Bool
unfolding is_2xx
any_2xx [] = false
any_2xx (e ∷ es) = is_2xx e.status_code || any_2xx es

-- Any line with a 2xx response makes the message count as successful.
unfoldable pub is_ok : ControlMessage → Bool
unfolding any_2xx
is_ok message = any_2xx message.parsed_content

abbrev pub unicode_entry : Entry → Text × Text × Text
unicode_entry e = (e.status_code, e.divider, decode_replace e.content)

abbrev pub bytes_entry : Entry → Text × Text × Bytes
bytes_entry e = (e.status_code, e.divider, e.content)

-- `message.content()`
unfoldable pub content : ControlMessage → List (Text × Text × Text)
content message = map unicode_entry message.parsed_content

-- `message.content(get_bytes = True)`
unfoldable pub content_bytes : ControlMessage → List (Text × Text × Bytes)
content_bytes message = map bytes_entry message.parsed_content

-- `list(message)`: the content of each line.
unfoldable pub lines : ControlMessage → List Text
lines message = map (λ (e : Entry). decode_replace e.content) message.parsed_content

-- `str(message)`
unfoldable pub to_str : ControlMessage → Text
to_str message = join (codes "\n") (lines message)

abbrev pub len : ControlMessage → ℕ
len message = length message.parsed_content

-- `message[0]`
unfoldable pub first_line : ControlMessage → Result Text
first_line message = elim (lines message) [ [] ↦ err index_error | line ∷ rest ↦ ok line ]
