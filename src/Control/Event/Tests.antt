-- ===== src/Control/Event/Tests.antt =====
-- Runs of the parser of an event's arguments, and of the loop over its keywords.
use stem.Base.{
  ok, err, some, protocol_error, [], ◌∷◌, Text, codes, length, none, ◌≡◌, refl, arith, text_eq,
}
use stem.Base.Dict
use stem.Control.Event.{
  next_arg, keyword_loop, words, parse_args, parse_bandwidth, event_type, assign_args, one_line,
  no_space, all_word_chars,
}
use stem.Control.Event.Loop.{keyword_loop-next_arg}

abbrev circuit_event : Text
circuit_event = codes "CIRC 7 BUILT $A=b PURPOSE=GENERAL NAME=\"a b\""

circuit_args : parse_args circuit_event ≡ (
  codes "7" ∷ codes "BUILT" ∷ codes "$A=b" ∷ [],
  (codes "NAME", codes "a b") ∷ (codes "PURPOSE", codes "GENERAL") ∷ [],
)
unfolding parse_args next_arg all_word_chars one_line no_space Dict.set text_eq
circuit_args = refl

keyword_loop-next_arg_example :
    next_arg (keyword_loop (length circuit_event) circuit_event []).0 ≡ none
keyword_loop-next_arg_example =
    keyword_loop-next_arg (length circuit_event) circuit_event [] (omega arith)

bandwidth : parse_bandwidth (codes "BW 15 25") ≡ ok (15, 25)
unfolding parse_bandwidth parse_args next_arg
bandwidth = refl

bandwidth_missing : parse_bandwidth (codes "BW 15") ≡ err protocol_error
unfolding parse_bandwidth parse_args next_arg
bandwidth_missing = refl

blank_event : event_type (codes " ") ≡ err protocol_error
unfolding event_type words
blank_event = refl

expiry :
    assign_args
      (codes "hostname" ∷ codes "destination" ∷ codes "expiry" ∷ [])
      (codes "expiry" ∷ [])
      (codes "a.b" ∷ codes "1.2.3.4" ∷ codes "\"2012-11-19" ∷ codes "00:50:13\"" ∷ [])
    ≡ ok (
        (codes "hostname", some (codes "a.b"))
        ∷ (codes "destination", some (codes "1.2.3.4"))
        ∷ (codes "expiry", some (codes "2012-11-19 00:50:13"))
        ∷ [])
unfolding assign_args
expiry = refl
