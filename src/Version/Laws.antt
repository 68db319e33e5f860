-- ===== src/Version/Laws.antt =====
-- Versions are compared as the sequences of their numbers and the characters of their status.
use stem.Base.{
  ℕ, List, [], ◌∷◌, ◌++◌, ◌≡◌, ◌⊎◌, refl, arith, true, false, ◌||◌, ltb, ◌==◌, Text, text_eq,
  Bool-cases, inl, inr, Option, none, some, ◌↔◌, sym, Bool, if◌then◌else◌, ==_iff,
}
use stem.Base.Affix.{text_eq_self, text_eq-eq}
use stem.Version.{
  Version, text_gt, or_empty, or_zero, numbers, compare_numbers, compare_with, eq, gt, ge,
}

-- What a version is ordered by.
abbrev pub key : Version → List ℕ
key v = numbers v ++ or_empty v.status

gt-key : (v w : Version) → gt v w ≡ text_gt (key v) (key w)
unfolding compare_with compare_numbers text_gt
gt-key v w = refl

eq-key : (v w : Version) → eq v w ≡ text_eq (key v) (key w)
unfolding compare_with compare_numbers text_eq
eq-key v w = ground arith

text_gt_trans : (s t u : Text) → text_gt s t ≡ true → text_gt t u ≡ true → text_gt s u ≡ true
unfolding text_gt
text_gt_trans [] t u h k = cc h
text_gt_trans (a ∷ s) [] u h k = cc k
text_gt_trans (a ∷ s) (b ∷ t) [] h k = refl
text_gt_trans (a ∷ s) (b ∷ t) (c ∷ u) h k = ground (arith, text_gt_trans s t u)

apart :
    (a b : ℕ)
    → (a == b) ≡ false
    → ((ltb b a ≡ true) × (false ≡ false) × (ltb a b ≡ false))
      ⊎ (((ltb b a ≡ false) × (false ≡ true) × (ltb a b ≡ false))
          ⊎ ((ltb b a ≡ false) × (false ≡ false) × (ltb a b ≡ true)))
apart a b h = elim (Bool-cases (ltb b a)) [
  | inl less ↦ inl (less, refl, ground arith)
  | inr at_most ↦ inr (inr (at_most, refl, ground arith))
]

-- Of two texts, exactly one is greater, or they are equal.
text_trichotomy :
    (s t : Text)
    → ((text_gt s t ≡ true) × (text_eq s t ≡ false) × (text_gt t s ≡ false))
      ⊎ (((text_gt s t ≡ false) × (text_eq s t ≡ true) × (text_gt t s ≡ false))
          ⊎ ((text_gt s t ≡ false) × (text_eq s t ≡ false) × (text_gt t s ≡ true)))
unfolding text_gt text_eq
text_trichotomy [] [] = inr (inl (refl, refl, refl))
text_trichotomy [] (b ∷ t) = inr (inr (refl, refl, refl))
text_trichotomy (a ∷ s) [] = inl (refl, refl, refl)
text_trichotomy (a ∷ s) (b ∷ t) = elim (Bool-cases (a == b)) [
  | inl same ↦ let back : (b == a) ≡ true = ground arith in rw (same, back) (text_trichotomy s t)
  | inr other ↦ let back : (b == a) ≡ false = ground arith in rw (other, back) (apart a b other)
]

-- The parts that are there are the same, and one that is missing is as the default.
abbrev pub SameOr {ℓ} : {A : Type ℓ} → A → Option A → Option A → Type ℓ
SameOr default none none = Unit {ℓ}
SameOr default none (some b) = b ≡ default
SameOr default (some a) none = a ≡ default
SameOr default (some a) (some b) = a ≡ b

abbrev pub SameVersion : Version → Version → Type 0
SameVersion v w =
    (v.major ≡ w.major)
    × (v.minor ≡ w.minor)
    × (v.micro ≡ w.micro)
    × SameOr 0 v.patch w.patch
    × SameOr [] v.status w.status

same_patch : (p q : Option ℕ) → ((or_zero p == or_zero q) ≡ true) ↔ SameOr 0 p q
same_patch none none = ((λ h. tt), (λ h. refl))
same_patch none (some b) = ((λ h. ground arith), (λ h. ground arith))
same_patch (some a) none = ((λ h. ground arith), (λ h. ground arith))
same_patch (some a) (some b) = ((λ h. ground arith), (λ h. ground arith))

text_eq_iff : (s t : Text) → (text_eq s t ≡ true) ↔ (s ≡ t)
text_eq_iff s t = (text_eq-eq s t, λ e. rw e (text_eq_self t))

same_status : (p q : Option Text) → (text_eq (or_empty p) (or_empty q) ≡ true) ↔ SameOr [] p q
same_status none none = ((λ h. tt), (λ h. text_eq_self []))
same_status none (some b) = ((λ h. sym (text_eq-eq [] b h)), (λ e. rw e (text_eq_self [])))
same_status (some a) none = text_eq_iff a []
same_status (some a) (some b) = text_eq_iff a b

-- The first part that differs decides.
both :
    {P Q : Type 0}
    → (a b : Bool) → ((a ≡ true) ↔ P)
    → ((b ≡ true) ↔ Q)
    → ((if a then b else a) ≡ true) ↔ (P × Q)
both true b p q = ((λ h. (p.0 refl, q.0 h)), (λ x. q.1 x.1))
both false b p q = ((λ h. cc h), (λ x. p.1 x.0))

eq-SameVersion : (v w : Version) → (eq v w ≡ true) ↔ SameVersion v w
unfolding compare_with compare_numbers
eq-SameVersion v w =
    let parts = both _ _ (==_iff v.major w.major) (
      both _ _ (==_iff v.minor w.minor) (
        both _ _ (==_iff v.micro w.micro)
          (both _ _ (same_patch v.patch w.patch) (same_status v.status w.status)))) in
    (
      (λ h. let (a, (b, (c, (d, e)))) = parts.0 h in (a, b, c, d, e)),
      λ (a, b, c, d, e). parts.1 (a, (b, (c, (d, e)))),
    )

-- Of two versions exactly one is greater than the other, or they are equal. They are equal exactly
-- if they have the same numbers and status, where a patch level that is missing is 0, and a status
-- that is missing is empty.
pub version_trichotomy :
    (v w : Version)
    → (((gt v w ≡ true) × (eq v w ≡ false) × (gt w v ≡ false))
        ⊎ (((gt v w ≡ false) × (eq v w ≡ true) × (gt w v ≡ false))
            ⊎ ((gt v w ≡ false) × (eq v w ≡ false) × (gt w v ≡ true))))
      × ((eq v w ≡ true) ↔ SameVersion v w)
version_trichotomy v w =
    (rw (gt-key v w, eq-key v w, gt-key w v) (text_trichotomy (key v) (key w)), eq-SameVersion v w)

-- A version that is greater than one that is greater than a third is greater than this.
pub gt_trans : (u v w : Version) → gt u v ≡ true → gt v w ≡ true → gt u w ≡ true
gt_trans u v w h k =
    rw (gt-key u w)
      (text_gt_trans (key u) (key v) (key w) (rw (gt-key u v) at h) (rw (gt-key v w) at k))

-- A version is at least another exactly if it is greater or equal.
pub ge-gt : (v w : Version) → ge v w ≡ (gt v w || eq v w)
unfolding compare_with compare_numbers
ge-gt v w = ground arith
