-- ===== src/Base/Errors.antt =====
-- Python's exceptions as values: a call returns a value or raises one of the library's exceptions.
use Prim.Native.Nat.{ℕ}
use mathlib.Core.Path.{◌≡◌, refl}
use mathlib.Core.Logic.{◌⊎◌, inl, inr}
use mathlib.Core.Bool.{Bool, true, false}
use mathlib.Core.List.{List, [], ◌∷◌}

-- `protocol_error`, `socket_closed` and the like are the library's own classes, the last three with
-- the arguments, or the code and the message, that they carry. `stuck` is no exception: a loop on
-- fuel ran out of it.
pub data Error : Type 0 where
  value_error overflow_error index_error type_error attribute_error : Error
  not_implemented os_error protocol_error socket_closed socket_error stuck : Error
  invalid_arguments : List (List ℕ) → Error
  invalid_request operation_failed : List ℕ → List ℕ → Error

-- What a call gives: its value, or the exception that it raises.
pub data Result {κ} (X : Type κ) : Type κ where
  ok : X → Result X
  err : Error → Result X

-- The steps of a call: an exception ends them.
infixl 5 ◌>>=◌ ◌>>◌
abbrev pub ◌>>=◌ {κ μ} : {X : Type κ} {Y : Type μ} → Result X → (X → Result Y) → Result Y
err raised >>= next = err raised
ok value >>= next = next value

abbrev pub ◌>>◌ {κ μ} : {X : Type κ} {Y : Type μ} → Result X → Result Y → Result Y
first >> second = first >>= λ done. second

-- `if test: raise e`
abbrev pub raise_if : Bool → Error → Result (Unit {0})
raise_if true e = err e
raise_if false e = ok tt

-- `[f(x) for x in xs]`, where `f` may raise.
unfoldable pub map_result {ℓ κ} :
    {A : Type ℓ} {B : Type κ} → (A → Result B) → List A → Result (List B)
map_result f [] = ok []
map_result f (x ∷ xs) = do y ← f x; ys ← map_result f xs; ok (y ∷ ys)

-- Inversion of a successful bind, for proofs where the parts stay shut.
pub >>=-eq-ok {κ μ} :
    {X : Type κ} {Y : Type μ} (first : Result X) (next : X → Result Y) {y : Y}
    → first >>= next ≡ ok y
    → (x : X) × (first ≡ ok x) × (next x ≡ ok y)
>>=-eq-ok (err raised) next done = cc done
>>=-eq-ok (ok x) next done = (x, refl, done)

-- The same for two steps whose results are put together.
pub pair-eq-ok {ℓ κ μ} :
    {A : Type ℓ} {B : Type κ} {C : Type μ} (m : Result A) (n : Result B) (f : A → B → C) {c : C}
    → (m >>= λ a. n >>= λ b. ok (f a b)) ≡ ok c
    → (a : A) × (b : B) × (m ≡ ok a) × (n ≡ ok b) × (f a b ≡ c)
pair-eq-ok (ok a) (ok b) f h = (a, b, refl, refl, cc)
pair-eq-ok (ok a) (err e) f h = cc
pair-eq-ok (err e) n f h = cc

-- A step that fails has failed itself, or what comes after it has.
pub >>=-eq-err {ℓ κ} :
    {A : Type ℓ} {B : Type κ} (m : Result A) (f : A → Result B) {e : Error}
    → (m >>= f) ≡ err e
    → (m ≡ err e) ⊎ ((a : A) × (m ≡ ok a) × (f a ≡ err e))
>>=-eq-err (ok a) f h = inr (a, refl, h)
>>=-eq-err (err e) f h = inl cc

-- To split on a result and keep the equation.
pub Result-cases {ℓ} :
    {A : Type ℓ} (m : Result A) → ((a : A) × (m ≡ ok a)) ⊎ ((e : Error) × (m ≡ err e))
Result-cases (ok a) = inl (a, refl)
Result-cases (err e) = inr (e, refl)
