-- ===== src/Control/Reply/GetInfo/Failure.antt =====
-- The errors of a GETINFO reply, of response/getinfo.py.
use stem.Base.{
  ℕ, List, [], ◌∷◌, ◌++◌, map, Text, false, codes, text_eq, All, isdigit, digits_value, All-append,
  ◌≡◌, refl, arith, append_assoc, length, drop-append, ◌<◌, Bool-cases, inl, inr,
}
use stem.Base.{err, invalid_arguments, operation_failed}
use stem.Base.Affix.{strip_last, ends_with-append, starts_with-append, text_eq-eq}
use stem.Base.Utf8.{IsAscii, decode_replace-IsAscii}
use stem.Control.Message
use stem.Control.Message.{Entry, ControlMessage}
use stem.Control.Reply.GetInfo.{
  parse_message, unrecognized, last_error, quoted_keyword, unrecognized_key,
}

-- A keyword is what stands between the prefix and the quote.
pub quoted_keyword_lem :
    (prefix k : Text) → quoted_keyword prefix (length prefix) (prefix ++ (k ++ codes "\"")) ≡ k ∷ []
unfolding quoted_keyword
quoted_keyword_lem prefix k = rw (
  starts_with-append prefix (k ++ codes "\""),
  ← append_assoc prefix k (codes "\""),
  ends_with-append (prefix ++ k) (codes "\""),
  strip_last (prefix ++ k) 34,
  drop-append prefix k,
)

-- An error line of a key that tor does not know, mid-reply or last.
abbrev pub unknown_key : Text → Text × Text → Entry
unknown_key prefix (divider, k) = record {
  status_code = codes "552";
  divider = divider;
  content = prefix ++ (k ++ codes "\"");
}

unknown-not-2xx :
    (prefix : Text) (ks : List (Text × Text))
    → Message.any_2xx (map (unknown_key prefix) ks) ≡ false
unfolding Message.any_2xx isdigit digits_value
unknown-not-2xx prefix [] = refl
unknown-not-2xx prefix (k ∷ ks) = unknown-not-2xx prefix ks

pub unrecognized-unknown_key :
    (prefix : Text) (ks : List (Text × Text))
    → IsAscii prefix
    → All (λ (k : Text × Text). IsAscii k.1) ks
    → unrecognized prefix (length prefix) (map (unknown_key prefix) ks)
      ≡ map (λ (k : Text × Text). k.1) ks
unfolding unrecognized
unrecognized-unknown_key prefix [] hp h = refl
unrecognized-unknown_key prefix ((d, k) ∷ ks) hp h = rw (
  decode_replace-IsAscii (prefix ++ (k ++ codes "\"")) (
      All-append (λ (c : ℕ). c < 128) prefix (k ++ codes "\"") hp
        (All-append (λ (c : ℕ). c < 128) k (codes "\"") h.0 (omega arith, tt))),
  quoted_keyword_lem prefix k,
  unrecognized-unknown_key prefix ks hp h.1,
)

key-IsAscii : IsAscii unrecognized_key
key-IsAscii = omega arith

not-250 : (code : Text) → Message.is_2xx code ≡ false → text_eq code (codes "250") ≡ false
unfolding Message.is_2xx isdigit digits_value
not-250 code fails = elim (Bool-cases (text_eq code (codes "250"))) [
  | inl same ↦ cc (rw (text_eq-eq code (codes "250") same) at fails)
  | inr other ↦ other
]

single_failure :
    (code divider message raw : Text)
    → IsAscii message
    → 0 < length code
    → Message.is_2xx code ≡ false
    → text_eq code (codes "552") ≡ false
    → parse_message (record {
      parsed_content = record { status_code = code; divider = divider; content = message } ∷ [];
      raw_content = raw;
    })
      ≡ err (operation_failed code message)
unfolding parse_message Message.is_ok Message.any_2xx unrecognized last_error
single_failure [] divider message raw hm pos fails other = absurd (omega (arith, pos))
single_failure (c ∷ code) divider message raw hm pos fails other =
    rw (fails, other, not-250 (c ∷ code) fails, decode_replace-IsAscii message hm)

-- A reply of nothing but lines for ASCII keys that tor does not know raises InvalidArguments with
-- these keys, in their order. One of a single ASCII line with another code that is no success raises
-- OperationFailed with the code and the line.
pub parse_message-failure :
    (k : Text × Text) (ks : List (Text × Text)) (code divider message raw : Text)
    → All (λ (k : Text × Text). IsAscii k.1) (k ∷ ks)
    → IsAscii message
    → 0 < length code
    → Message.is_2xx code ≡ false
    → text_eq code (codes "552") ≡ false
    → (parse_message (record {
      parsed_content = map (unknown_key unrecognized_key) (k ∷ ks);
      raw_content = raw;
    })
        ≡ err (invalid_arguments (map (λ (k : Text × Text). k.1) (k ∷ ks))))
      × (parse_message (record {
        parsed_content = record { status_code = code; divider = divider; content = message } ∷ [];
        raw_content = raw;
      })
          ≡ err (operation_failed code message))
unfolding parse_message Message.is_ok
parse_message-failure k ks code divider message raw hk hm pos fails other = (
  rw
      (
        unknown-not-2xx unrecognized_key (k ∷ ks),
        unrecognized-unknown_key unrecognized_key (k ∷ ks) key-IsAscii hk,
      )
      refl,
  single_failure code divider message raw hm pos fails other,
)
