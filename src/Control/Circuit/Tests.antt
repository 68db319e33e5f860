-- ===== src/Control/Circuit/Tests.antt =====
-- Runs of the parser of a circuit's path.
use stem.Base.{List, [], ◌∷◌, map, Text, codes, none, some, ◌≡◌, refl, true, has_char}
use stem.Base.{ok, err, index_error, value_error, protocol_error}
use stem.Base.{lstrip, rstrip}
use stem.Util.Hex.{int_16}
use stem.Util.TorTools.{is_valid_fingerprint, is_valid_nickname}
use stem.Control.Circuit.{parse_circ_path}
use stem.Control.Circuit.Laws.{
  Name, long_name, only_fingerprint, only_nickname, relay_of, path_text, IsFingerprint,
  parse_circ_path-path_text,
}

abbrev digits : Text
digits = codes "E57A476CD4DFBD99B4EE52A100A58610AD6E80B9"

abbrev other_relays : List Name
other_relays = only_fingerprint digits ∷ only_nickname b'h' (codes "amburgerphone") ∷ []

plain_digits : IsFingerprint digits
unfolding has_char is_valid_fingerprint int_16 lstrip rstrip
plain_digits = ((refl, refl, refl), refl)

piyaz_valid : is_valid_nickname (codes "piyaz") ≡ true
unfolding is_valid_nickname
piyaz_valid = refl

hamburger_valid : is_valid_nickname (codes "hamburgerphone") ≡ true
unfolding is_valid_nickname
hamburger_valid = refl

parse_circ_path-path_text_example :
    parse_circ_path (some (path_text (long_name digits (codes "piyaz")) other_relays))
    ≡ ok (map relay_of (long_name digits (codes "piyaz") ∷ other_relays))
unfolding has_char
parse_circ_path-path_text_example =
    parse_circ_path-path_text (long_name digits (codes "piyaz")) other_relays (
      (plain_digits, (refl, refl, refl), piyaz_valid),
      (plain_digits, (((refl, refl, refl), hamburger_valid, refl), tt)),
    )

no_path : parse_circ_path none ≡ ok []
unfolding parse_circ_path
no_path = refl

-- An entry that is empty is no protocol error, and two equals signs are none either.
empty_entry : parse_circ_path (some (codes "A,,B")) ≡ err index_error
unfolding parse_circ_path is_valid_nickname
empty_entry = refl

two_equals : parse_circ_path (some (codes "$A=b=c")) ≡ err value_error
unfolding parse_circ_path
two_equals = refl

malformed_nickname : parse_circ_path (some (codes "hamburger-phone")) ≡ err protocol_error
unfolding parse_circ_path is_valid_nickname
malformed_nickname = refl
