-- ===== src/Client/Datatype/Enums/Laws.antt =====
-- The integer of an enumeration's value leads back to the value.
use Prim.Native.String.{String}
use text.Mathlib.TextEquality.{eq_iff}
use stem.Base.{ℕ, [], ◌∷◌, ◌≡◌, refl, arith, Value, num, int, str, pos, negsuc}
use stem.Base.{none, some, ok, Option-cases, inl, inr}
use stem.Client.Datatype.Enums.{
  IntegerEnum, int_to_enum, enum_to_int, get, addr_type, relay_command, cert_type, close_reason,
}

-- No integer stands for two values.
abbrev pub Unique : IntegerEnum → Type 0
Unique [] = Unit {0}
Unique ((name, i) ∷ entries) = (int_to_enum entries i ≡ none) × Unique entries

pub all_Unique : Unique addr_type × Unique relay_command × Unique cert_type × Unique close_reason
unfolding int_to_enum
all_Unique = (
  (refl, (refl, (refl, (refl, (refl, tt))))),
  (
    refl,
    (
      refl,
      (
        refl,
        (
          refl,
          (
            refl,
            (refl, (refl, (refl, (refl, (refl, (refl, (refl, (refl, (refl, (refl, tt)))))))))),
          ),
        ),
      ),
    ),
  ),
  (refl, (refl, (refl, (refl, (refl, (refl, (refl, (refl, (refl, (refl, (refl, tt))))))))))),
  (
    refl,
    (
      refl,
      (refl, (refl, (refl, (refl, (refl, (refl, (refl, (refl, (refl, (refl, (refl, tt))))))))))),
    ),
  ),
)

int_to_enum-enum_to_int :
    (enum : IntegerEnum) (val : String) (i : ℕ)
    → Unique enum
    → enum_to_int enum val ≡ some i
    → int_to_enum enum i ≡ some val
unfolding int_to_enum enum_to_int
int_to_enum-enum_to_int [] val i u h = cc
int_to_enum-enum_to_int ((name, j) ∷ entries) val i u h =
    ground (arith, eq_iff name val, int_to_enum-enum_to_int entries val i u.1, u.0)

-- In an enumeration without repeated integers, a value that is known under an integer is the value
-- that this integer stands for.
pub get-get :
    (enum : IntegerEnum) (v : Value) (name : String) (i : ℕ)
    → Unique enum
    → get enum v ≡ ok (name, num i)
    → get enum (num i) ≡ ok (name, num i)
unfolding get
get-get enum (int (pos n)) name i u h = ground arith
get-get enum (int (negsuc n)) name i u h = cc
get-get enum (str s) name i u h = elim (Option-cases (enum_to_int enum s)) [
  | inl missing ↦ ground arith
  | inr (j, found) ↦ ground (arith, int_to_enum-enum_to_int enum s j u found)
]
