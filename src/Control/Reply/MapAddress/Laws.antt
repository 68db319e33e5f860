-- ===== src/Control/Reply/MapAddress/Laws.antt =====
-- Successes and failures of a MAPADDRESS reply are told apart, of response/mapaddress.py.
use stem.Base.{
  ℕ, List, [], ◌∷◌, ◌++◌, map, Text, Bool, true, false, ◌||◌, codes, text_eq, All, ◌≡◌, refl, arith,
  append_assoc, append-nil, All-append, ◌<◌, isdigit, digits_value,
}
use stem.Base.{ok}
use stem.Base.Pieces.{Lacks}
use stem.Base.Dict
use stem.Base.Utf8.{IsAscii, decode_replace-IsAscii}
use stem.Control.Message
use stem.Control.Message.{Entry, ControlMessage}
use stem.Control.Line.Laws.{split_once-piece}
use stem.Control.Reply.MapAddress.{Mapped, nothing_mapped, read_mappings, parse_message}

-- A line of the reply: an address with the one that stands for it, or a failure's code and message.
pub data Outcome : Type 0 where
  success : Text → Text → Outcome
  failed : Text → Text → Outcome

abbrev pub entry_of : Text × Outcome → Entry
entry_of (divider, success from to) = record {
  status_code = codes "250";
  divider = divider;
  content = from ++ (b'=' ∷ to);
}
entry_of (divider, failed code message) = record {
  status_code = code;
  divider = divider;
  content = message;
}

abbrev pub IsOutcome : Text × Outcome → Type 0
IsOutcome (divider, success from to) = IsAscii from × IsAscii to × Lacks b'=' from
IsOutcome (divider, failed code message) = IsAscii message × (text_eq code (codes "250") ≡ false)

abbrev pub mappings : List (Text × Outcome) → List (Text × Text)
mappings [] = []
mappings ((divider, success from to) ∷ es) = (from, to) ∷ mappings es
mappings ((divider, failed code message) ∷ es) = mappings es

abbrev pub messages : List (Text × Outcome) → List Text
messages [] = []
messages ((divider, success from to) ∷ es) = messages es
messages ((divider, failed code message) ∷ es) = message ∷ messages es

unfoldable pub any_success : List (Text × Outcome) → Bool
any_success [] = false
any_success ((divider, success from to) ∷ es) = true
any_success ((divider, failed code message) ∷ es) = any_success es

read_outcomes :
    (found : Mapped) (es : List (Text × Outcome))
    → All IsOutcome es
    → read_mappings found (map Message.unicode_entry (map entry_of es))
      ≡ ok (record {
        mapped = Dict.set_all found.mapped (mappings es);
        failures = found.failures ++ messages es;
      })
unfolding read_mappings
read_outcomes found [] h = rw append-nil
read_outcomes found ((divider, success from to) ∷ es) h =
    rw
      (
        decode_replace-IsAscii (from ++ (b'=' ∷ to))
            (All-append (λ (c : ℕ). c < 128) from (b'=' ∷ to) h.0.0 (omega arith, h.0.1)),
        split_once-piece b'=' from to h.0.2,
      )
      (read_outcomes (record found { mapped = Dict.set from to found.mapped }) es h.1)
read_outcomes found ((divider, failed code message) ∷ es) h =
    rw (decode_replace-IsAscii message h.0.0, h.0.1)
      (rw (
        read_outcomes (record found { failures = found.failures ++ (message ∷ []) }) es h.1,
        append_assoc,
      ))

or_true : (b : Bool) → (b || true) ≡ true
or_true true = refl
or_true false = refl

any_2xx-success :
    (es : List (Text × Outcome)) → any_success es ≡ true → Message.any_2xx (map entry_of es) ≡ true
unfolding Message.any_2xx any_success isdigit digits_value
any_2xx-success [] h = cc h
any_2xx-success ((divider, success from to) ∷ es) h = refl
any_2xx-success ((divider, failed code message) ∷ es) h =
    rw (any_2xx-success es h) (or_true (Message.is_2xx code))

-- A reply of which one line at least is a mapping: the mappings are the successes, where the last one
-- of an address counts, and the failures are the messages of the other lines, in their order.
pub parse_message-mappings :
    (es : List (Text × Outcome)) (raw : Text)
    → All IsOutcome es
    → any_success es ≡ true
    → parse_message (record { parsed_content = map entry_of es; raw_content = raw })
      ≡ ok (record { mapped = Dict.set_all [] (mappings es); failures = messages es })
unfolding parse_message Message.is_ok Message.content
parse_message-mappings es raw h some_ok =
    rw (any_2xx-success es some_ok) (read_outcomes nothing_mapped es h)
