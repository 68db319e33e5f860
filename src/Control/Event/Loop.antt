-- ===== src/Control/Event/Loop.antt =====
-- The loop over the keywords of an event ends, of response/events.py.
use stem.Base.{
  ℕ, zero, suc, ◌+◌, ◌≤◌, List, [], ◌∷◌, Text, ◌==◌, codes, length, split_once, ends_with,
  without_last, Option, none, some, ◌≡◌, refl, arith, Bool-cases, inl, inr, ◌⊎◌,
}
use stem.Base.Dict
use stem.Control.Event.{
  Match, plain_value, quoted_value, pick, here, or_else, match_end, match_arg, next_arg,
  keyword_loop,
}

-- What is left of a text is at least one character shorter, where there is a match.
abbrev IsShorter : ℕ → Option Match → Type 0
IsShorter n none = Unit {0}
IsShorter n (some m) = length m.0 + 1 ≤ n

here-IsShorter : (c n : ℕ) (first : Option (Text × Text)) → IsShorter (suc n) (here c first)
here-IsShorter c n none = tt
here-IsShorter c n (some (keyword, value)) = elim (Bool-cases (c == b' ')) [
  | inl e ↦ rw e (omega arith)
  | inr e ↦ rw e tt
]

pick-IsShorter :
    (c n : ℕ) (first : Option (Text × Text)) (m : Option Match)
    → IsShorter n m
    → IsShorter (suc n) (pick c first m)
pick-IsShorter c n first none h = here-IsShorter c n first
pick-IsShorter c n first (some m) h = elim (Bool-cases (c == b'\n')) [
  | inl e ↦ rw e tt
  | inr e ↦ rw e (omega arith)
]

match_end-IsShorter :
    (value : Text × Option Text → Option (Text × Text)) (s : Text)
    → IsShorter (length s) (match_end value s)
unfolding match_end
match_end-IsShorter value [] = tt
match_end-IsShorter value (c ∷ s) =
    pick-IsShorter c (length s) (value (split_once b'=' s)) (match_end value s)
      (match_end-IsShorter value s)

length-without_last : (s : Text) → length (without_last s) ≤ length s
unfolding without_last
length-without_last [] = omega arith
length-without_last (c ∷ []) = omega arith
length-without_last (c ∷ d ∷ s) = omega (arith, length-without_last (d ∷ s))

weaken-IsShorter : (m : Option Match) (a b : ℕ) → a ≤ b → IsShorter a m → IsShorter b m
weaken-IsShorter none a b le h = tt
weaken-IsShorter (some m) a b le h = omega arith

or_else-IsShorter :
    (a b : Option Match) (n : ℕ) → IsShorter n a → IsShorter n b → IsShorter n (or_else a b)
or_else-IsShorter none b n ha hb = hb
or_else-IsShorter (some m) b n ha hb = ha

match_arg-IsShorter :
    (value : Text × Option Text → Option (Text × Text)) (s : Text)
    → IsShorter (length s) (match_arg value s)
unfolding match_arg
match_arg-IsShorter value s =
    or_else-IsShorter _ _ _ (match_end-IsShorter value s)
      (elim (Bool-cases (ends_with (codes "\n") s)) [
        | inl e ↦ rw e (
            weaken-IsShorter _ _ _ (length-without_last s)
              (match_end-IsShorter value (without_last s)))
        | inr e ↦ rw e tt
      ])

next_arg-IsShorter : (s : Text) → IsShorter (length s) (next_arg s)
unfolding next_arg
next_arg-IsShorter s =
    or_else-IsShorter _ _ _ (match_arg-IsShorter quoted_value s) (match_arg-IsShorter plain_value s)

Option-cases : (m : Option Match) → (m ≡ none) ⊎ ((n : Match) × (m ≡ some n))
Option-cases none = inl refl
Option-cases (some n) = inr (n, refl)

nothing_left : (s : Text) → length s ≤ 0 → next_arg s ≡ none
nothing_left s h = elim (Option-cases (next_arg s)) [
  | inl e ↦ e
  | inr (m, e) ↦
      let shorter : length m.0 + 1 ≤ length s = rw e at (next_arg-IsShorter s) in
      absurd (omega arith)
]

-- With as much fuel as the text has characters, and with more, the loop over the keywords of an
-- event ends because no keyword is left to be read.
pub keyword_loop-next_arg :
    (n : ℕ) (content : Text) (keyword_args : List (Text × Text))
    → length content ≤ n
    → next_arg (keyword_loop n content keyword_args).0 ≡ none
unfolding keyword_loop
keyword_loop-next_arg zero content keyword_args h = nothing_left content h
keyword_loop-next_arg (suc n) content keyword_args h = elim (Option-cases (next_arg content)) [
  | inl e ↦ rw (keyword_loop, e) e
  | inr (m, e) ↦
      let shorter : length m.0 + 1 ≤ length content = rw e at (next_arg-IsShorter content) in
      rw (keyword_loop, e)
        (keyword_loop-next_arg n m.0 (Dict.set m.1 m.2 keyword_args) (omega arith))
]
