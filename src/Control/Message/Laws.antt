-- ===== src/Control/Message/Laws.antt =====
-- Messages of 250 lines, for the replies of response/*.py.
use stem.Base.{List, [], ◌∷◌, map, Text, true, codes, isdigit, digits_value, All, ◌≡◌, refl}
use stem.Base.Utf8.{IsAscii, decode_replace-IsAscii}
use stem.Control.Message
use stem.Control.Message.{Entry, ControlMessage}

abbrev pub ok_entry : Text → Entry
ok_entry line = record { status_code = codes "250"; divider = codes "-"; content = line }

pub message_lines :
    (lines : List Text) (raw : Text)
    → All IsAscii lines
    → Message.lines (record { parsed_content = map ok_entry lines; raw_content = raw }) ≡ lines
unfolding Message.lines
message_lines [] raw h = refl
message_lines (l ∷ lines) raw h = rw (decode_replace-IsAscii l h.0, message_lines lines raw h.1)

pub successful : (l : Text) (lines : List Text) → Message.any_2xx (map ok_entry (l ∷ lines)) ≡ true
unfolding Message.any_2xx isdigit digits_value
successful l lines = refl
