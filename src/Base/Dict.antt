-- ===== src/Base/Dict.antt =====
-- A Python dict whose keys are texts: an association list in the order of insertion.

use mathlib.Core.Path.{◌≡◌, refl}
use mathlib.Core.Logic.{inl, inr}
use mathlib.Core.Bool.{Bool, true, false, ◌||◌}
use mathlib.Core.List.{List, [], ◌∷◌, ◌++◌, append_assoc, append-nil}
use mathlib.Core.Option.{Option, none, some}
use native.Mathlib.Omega.{arith}
use stem.Base.Tests.{if◌then◌else◌, Bool-cases}
use stem.Base.Strings.{Text, text_eq}
use stem.Base.Affix.{text_eq-eq, text_eq_comm}

module _ {ℓ} {V : Type ℓ} where
  -- `d[key] = value`
  unfoldable pub set : Text → V → List (Text × V) → List (Text × V)
  set key value [] = (key, value) ∷ []
  set key value ((k, v) ∷ d) =
      let rest = (k, v) ∷ set key value d in if text_eq key k then (k, value) ∷ d else rest

  -- `d.get(key)`
  unfoldable pub lookup : Text → List (Text × V) → Option V
  lookup key [] = none
  lookup key ((k, v) ∷ d) = let rest = lookup key d in if text_eq key k then some v else rest

  -- `key in d`
  unfoldable pub has_key : Text → List (Text × V) → Bool
  has_key key [] = false
  has_key key ((k, v) ∷ d) = text_eq key k || has_key key d

  -- A new key comes last.
  pub set-append :
      (key : Text) (value : V) (d : List (Text × V))
      → has_key key d ≡ false
      → set key value d ≡ d ++ ((key, value) ∷ [])
  unfolding set has_key
  set-append key value [] h = refl
  set-append key value ((k, v) ∷ d) h = ground (arith, set-append key value d)

  overwritten :
      (key k j : Text) (value v : V) (d : List (Text × V))
      → text_eq k j ≡ true
      → lookup key ((j, value) ∷ d)
        ≡ (if text_eq key k then some value else lookup key ((j, v) ∷ d))
  unfolding lookup
  overwritten key k j value v d same =
      rw (← text_eq-eq k j same)
        (elim (Bool-cases (text_eq key k)) [ inl found ↦ rw found | inr next ↦ rw next ])

  pub lookup-set :
      (key k : Text) (value : V) (d : List (Text × V))
      → lookup key (set k value d) ≡ (if text_eq key k then some value else lookup key d)
  unfolding set lookup
  lookup-set key k value [] = refl
  lookup-set key k value ((j, v) ∷ d) = elim (Bool-cases (text_eq k j)) [
    | inl same ↦ rw same (overwritten key k j value v d same)
    | inr other ↦
        rw (other, lookup-set key k value d)
          (elim (Bool-cases (text_eq key j)) [
            | inl found ↦
                let e : text_eq key k ≡ false =
                  rw (text_eq-eq key j found, text_eq_comm j k) other in
                rw (found, e)
            | inr next ↦ rw next
          ])
  ]

-- The dict that `d[key] = value` makes for each of the entries in turn.
abbrev pub set_all {ℓ} : {V : Type ℓ} → List (Text × V) → List (Text × V) → List (Text × V)
set_all d [] = d
set_all d ((k, v) ∷ es) = set_all (set k v d) es

-- Keys that differ from one another and from those of the dict.
abbrev pub Fresh {ℓ} : {V : Type ℓ} → List (Text × V) → List (Text × V) → Type 0
Fresh d [] = Unit {0}
Fresh d ((k, v) ∷ es) = (has_key k d ≡ false) × Fresh (d ++ ((k, v) ∷ [])) es

pub set_all-Fresh {ℓ} : {V : Type ℓ} (d es : List (Text × V)) → Fresh d es → set_all d es ≡ d ++ es
set_all-Fresh d [] h = rw append-nil
set_all-Fresh d ((k, v) ∷ es) h =
    rw (set-append k v d h.0, set_all-Fresh (d ++ ((k, v) ∷ [])) es h.1, append_assoc)

pub lookup-has_key {ℓ} :
    {V : Type ℓ} (key : Text) (d : List (Text × V))
    → has_key key d ≡ true
    → (v : V) × (lookup key d ≡ some v)
unfolding lookup has_key
lookup-has_key key [] h = absurd (cc h)
lookup-has_key key ((k, v) ∷ d) h = elim (Bool-cases (text_eq key k)) [
  | inl found ↦ (v, rw found)
  | inr next ↦ let (w, e) = lookup-has_key key d (rw next at h) in (w, rw next e)
]

pub lookup-none {ℓ} :
    {V : Type ℓ} (key : Text) (d : List (Text × V)) → has_key key d ≡ false → lookup key d ≡ none
unfolding lookup has_key
lookup-none key [] h = refl
lookup-none key ((k, v) ∷ d) h = ground (arith, lookup-none key d)
