-- ===== src/Client/Datatype/Enums.antt =====
-- `_IntegerEnum` of client/datatype.py and its instances.
pub mod Laws
use Prim.Native.String.{String}
use text.Mathlib.Text.{◌==◌ as str_eq}
use stem.Base.{ℕ, ◌==◌, if◌then◌else◌, List, [], ◌∷◌, Value, num, int, str, pos, negsuc}
use stem.Base.{Option, none, some, Bool, true, false, ◌||◌, Result, ok, err, value_error}

-- The value that the source gives an enumeration's string, with its integer. `UNKNOWN` is added to
-- the strings by every enumeration, and has no integer.
abbrev pub IntegerEnum : Type 0
IntegerEnum = List (String × ℕ)

abbrev pub unknown : String
unknown = "UNKNOWN"

-- `_int_to_enum.get(val)`, `_enum_to_int.get(val)`
unfoldable pub int_to_enum : IntegerEnum → ℕ → Option String
int_to_enum [] val = none
int_to_enum ((name, i) ∷ entries) val = if i == val then some name else int_to_enum entries val

unfoldable pub enum_to_int : IntegerEnum → String → Option ℕ
enum_to_int [] val = none
enum_to_int ((name, i) ∷ entries) val = if str_eq name val then some i else enum_to_int entries val

abbrev or_unknown : Option String → String
or_unknown none = unknown
or_unknown (some name) = name

abbrev named : String → Option ℕ → Result (String × Value)
named val none = if str_eq val unknown then ok (val, str val) else err value_error
named val (some i) = ok (val, num i)

-- The (enum, int_value) tuple of a value: an integer without a mapping is UNKNOWN, and so is that
-- name its own value.
unfoldable pub get : IntegerEnum → Value → Result (String × Value)
unfolding int_to_enum enum_to_int
get enum (int (pos val)) = ok (or_unknown (int_to_enum enum val), num val)
get enum (int (negsuc val)) = ok (unknown, int (negsuc val))
get enum (str val) = named val (enum_to_int enum val)

abbrev pub addr_type : IntegerEnum
addr_type =
    ("HOSTNAME", 0)
    ∷ ("IPv4", 4)
    ∷ ("IPv6", 6)
    ∷ ("ERROR_TRANSIENT", 16)
    ∷ ("ERROR_PERMANENT", 17)
    ∷ []

abbrev pub relay_command : IntegerEnum
relay_command =
    ("RELAY_BEGIN", 1)
    ∷ ("RELAY_DATA", 2)
    ∷ ("RELAY_END", 3)
    ∷ ("RELAY_CONNECTED", 4)
    ∷ ("RELAY_SENDME", 5)
    ∷ ("RELAY_EXTEND", 6)
    ∷ ("RELAY_EXTENDED", 7)
    ∷ ("RELAY_TRUNCATE", 8)
    ∷ ("RELAY_TRUNCATED", 9)
    ∷ ("RELAY_DROP", 10)
    ∷ ("RELAY_RESOLVE", 11)
    ∷ ("RELAY_RESOLVED", 12)
    ∷ ("RELAY_BEGIN_DIR", 13)
    ∷ ("RELAY_EXTEND2", 14)
    ∷ ("RELAY_EXTENDED2", 15)
    ∷ []

abbrev pub cert_type : IntegerEnum
cert_type =
    ("LINK", 1)
    ∷ ("IDENTITY", 2)
    ∷ ("AUTHENTICATE", 3)
    ∷ ("ED25519_SIGNING", 4)
    ∷ ("LINK_CERT", 5)
    ∷ ("ED25519_AUTHENTICATE", 6)
    ∷ ("ED25519_IDENTITY", 7)
    ∷ ("HS_V3_DESC_SIGNING", 8)
    ∷ ("HS_V3_INTRO_AUTH", 9)
    ∷ ("NTOR_ONION_KEY", 10)
    ∷ ("HS_V3_NTOR_ENC", 11)
    ∷ []

abbrev pub close_reason : IntegerEnum
close_reason =
    ("NONE", 0)
    ∷ ("PROTOCOL", 1)
    ∷ ("INTERNAL", 2)
    ∷ ("REQUESTED", 3)
    ∷ ("HIBERNATING", 4)
    ∷ ("RESOURCELIMIT", 5)
    ∷ ("CONNECTFAILED", 6)
    ∷ ("OR_IDENTITY", 7)
    ∷ ("CHANNEL_CLOSED", 8)
    ∷ ("FINISHED", 9)
    ∷ ("TIMEOUT", 10)
    ∷ ("DESTROYED", 11)
    ∷ ("NOSUCHSERVICE", 12)
    ∷ []
