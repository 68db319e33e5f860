-- ===== src/Control/Circuit/Laws.antt =====
-- The relays of a circuit's path are read back, of control.py.
use stem.Base.{
  ℕ, List, [], ◌∷◌, ◌++◌, map, Text, true, false, codes, ◌==◌, has_char, split_on, join, none, some,
  All, ◌≡◌, refl, arith,
}
use stem.Base.{ok, map_result}
use stem.Base.Pieces.{Lacks, Lacks-append, split_on-join}
use stem.Util.TorTools.{is_valid_fingerprint, is_valid_nickname}
use stem.Control.Circuit.{Relay, entry_parts, parse_circ_entry, parse_circ_path}

-- How a relay is written: with both names, or with one of them.
pub data Name : Type 0 where
  long_name : Text → Text → Name
  only_fingerprint : Text → Name
  only_nickname : ℕ → Text → Name

abbrev pub name_text : Name → Text
name_text (long_name f n) = b'$' ∷ f ++ (b'=' ∷ n)
name_text (only_fingerprint f) = b'$' ∷ f
name_text (only_nickname c n) = c ∷ n

abbrev pub relay_of : Name → Relay
relay_of (long_name f n) = (some f, some n)
relay_of (only_fingerprint f) = (some f, none)
relay_of (only_nickname c n) = (none, some (c ∷ n))

-- Fingerprints and nicknames that are valid and have none of the separators.
abbrev pub Plain : Text → Type 0
Plain s = Lacks b'=' s × Lacks b'~' s × Lacks b',' s

abbrev pub IsFingerprint : Text → Type 0
IsFingerprint f = Plain f × (is_valid_fingerprint (b'$' ∷ f) true ≡ true)

abbrev pub IsName : Name → Type 0
IsName (long_name f n) = IsFingerprint f × Plain n × (is_valid_nickname n ≡ true)
IsName (only_fingerprint f) = IsFingerprint f
IsName (only_nickname c n) =
    Plain (c ∷ n) × (is_valid_nickname (c ∷ n) ≡ true) × ((c == b'$') ≡ false)

has_equals : (f n : Text) → has_char b'=' (b'$' ∷ f ++ (b'=' ∷ n)) ≡ true
unfolding has_char
has_equals [] n = refl
has_equals (c ∷ f) n = ground (arith, has_equals f n)

two_pieces :
    (f n : Text)
    → Lacks b'=' (b'$' ∷ f)
    → Lacks b'=' n
    → split_on b'=' (b'$' ∷ f ++ (b'=' ∷ n)) ≡ (b'$' ∷ f) ∷ n ∷ []
unfolding join
two_pieces f n hf hn = split_on-join b'=' (b'$' ∷ f) (n ∷ []) (hf, (hn, tt))

dollar : (c : ℕ) (f : Text) → (c == b'$') ≡ false → Lacks c f → Lacks c (b'$' ∷ f)
unfolding has_char
dollar c f e h = rw e h

parts_lem : (name : Name) → IsName name → parse_circ_entry (name_text name) ≡ ok (relay_of name)
unfolding parse_circ_entry entry_parts
parts_lem (long_name f n) h =
    rw (has_equals f n, two_pieces f n (dollar b'=' f refl h.0.0.0) h.1.0, h.0.1, h.2)
parts_lem (only_fingerprint f) h = rw (dollar b'=' f refl h.0.0, dollar b'~' f refl h.0.1, h.1)
parts_lem (only_nickname c n) h = rw (h.0.0, h.0.1, h.2, h.1)

Lacks-name_text : (name : Name) → IsName name → Lacks b',' (name_text name)
unfolding has_char
Lacks-name_text (long_name f n) h = Lacks-append b',' f (b'=' ∷ n) h.0.0.2 h.1.2
Lacks-name_text (only_fingerprint f) h = h.0.2
Lacks-name_text (only_nickname c n) h = h.0.2

entries-Lacks : (names : List Name) → All IsName names → All (Lacks b',') (map name_text names)
entries-Lacks [] h = tt
entries-Lacks (name ∷ names) h = (Lacks-name_text name h.0, entries-Lacks names h.1)

entries_lem :
    (names : List Name)
    → All IsName names
    → map_result parse_circ_entry (map name_text names) ≡ ok (map relay_of names)
unfolding map_result
entries_lem [] h = refl
entries_lem (name ∷ names) h = rw (parts_lem name h.0, entries_lem names h.1)

-- The text of a path, which is not empty.
abbrev pub path_text : Name → List Name → Text
path_text name names = join (codes ",") (map name_text (name ∷ names))

-- A path that is not empty is split and its entries are parsed.
entries_of :
    (name : Name) (names : List Name)
    → parse_circ_path (some (path_text name names))
      ≡ map_result parse_circ_entry (split_on b',' (path_text name names))
unfolding parse_circ_path join
entries_of (long_name f n) [] = refl
entries_of (only_fingerprint f) [] = refl
entries_of (only_nickname c n) [] = refl
entries_of (long_name f n) (m ∷ names) = refl
entries_of (only_fingerprint f) (m ∷ names) = refl
entries_of (only_nickname c n) (m ∷ names) = refl

-- A circuit's path that is written out from relays, each with a fingerprint and a nickname or
-- with one of them, is parsed as these relays, in their order, when the fingerprints and
-- nicknames are valid, have no comma, equals sign or tilde, and no nickname on its own starts
-- with a dollar sign.
pub parse_circ_path-path_text :
    (name : Name) (names : List Name)
    → All IsName (name ∷ names)
    → parse_circ_path (some (path_text name names)) ≡ ok (map relay_of (name ∷ names))
parse_circ_path-path_text name names h =
    rw
      (
        entries_of name names,
        split_on-join b',' (name_text name) (map name_text names) (entries-Lacks (name ∷ names) h),
      )
      (entries_lem (name ∷ names) h)
