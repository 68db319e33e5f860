-- ===== src/Client/Relay/Laws.antt =====
-- The stream of cells, the agreed link protocol, and the ids of circuits.
use stem.Base.{
  ℕ, ◌+◌, ◌≤◌, List, [], ◌∷◌, ◌++◌, ◌≡◌, refl, sym, ap, subst, ◌∙◌, arith, Bytes, true, false, ltb,
  ◌==◌, length, Option, none, some,
}
use stem.Base.{
  ok, socket_error, raise_if, >>=-eq-ok, Bool-cases, ==_iff, ◌⊎◌, inl, inr, append_assoc,
}
use stem.Client.Datatype.Size
use stem.Client.Datatype.Size.{char, short, Size}
use stem.Client.Cell.Types.{Cell, CellType, is_fixed_size, by_value, versions_cell}
use stem.Client.Cell.Wire
use stem.Client.Cell.Wire.Laws.{pop-append_cell}
use stem.Client.Relay.{
  Stream, await_size, cell_size, await_cell, recv, is_in, common, larger, maximum, next_after,
  next_circ_id, negotiate, agreed, versions_of,
}

-- All bytes that a stream holds, whether they were read or not.
abbrev pub flatten : List Bytes → Bytes
flatten [] = []
flatten (piece ∷ pieces) = piece ++ flatten pieces

abbrev pub contents : Stream → Bytes
contents s = s.buffer ++ flatten s.pieces

pub await_size-contents :
    (size : ℕ) (buffer : Bytes) (pieces : List Bytes) (s : Stream)
    → await_size size buffer pieces ≡ ok s
    → contents s ≡ buffer ++ flatten pieces
unfolding await_size
await_size-contents size buffer [] s h = elim (Bool-cases (ltb (length buffer) size)) [
  | inl short_of ↦ cc (rw short_of at h)
  | inr enough ↦
      let e : record { buffer = buffer; pieces = [] } ≡ s = cc (rw enough at h) in
      ap (λ (s : Stream). contents s) (sym e)
]
await_size-contents size buffer (piece ∷ pieces) s h =
    elim (Bool-cases (ltb (length buffer) size)) [
      | inl short_of ↦
          await_size-contents size (buffer ++ piece) pieces s (rw short_of at h)
          ∙ append_assoc buffer piece _
      | inr enough ↦
          let e : record { buffer = buffer; pieces = piece ∷ pieces } ≡ s = cc (rw enough at h) in
          ap (λ (s : Stream). contents s) (sym e)
    ]

cell_size-contents :
    (circ_id_size : ℕ) (cls : CellType) (s : Stream) (size : ℕ) (t : Stream)
    → cell_size circ_id_size cls s ≡ ok (size, t)
    → contents t ≡ contents s
unfolding cell_size
cell_size-contents circ_id_size cls s size t h = elim (Bool-cases (is_fixed_size cls)) [
  | inl fixed ↦ let e : s ≡ t = cc (rw fixed at h) in ap (λ (s : Stream). contents s) (sym e)
  | inr variable ↦
      let (u, awaited, h1) = >>=-eq-ok (await_size _ s.buffer s.pieces) _ (rw variable at h) in
      let (p, _, h2) = >>=-eq-ok (Size.pop short _) _ h1 in
      let e : u ≡ t = cc h2 in
      ap (λ (s : Stream). contents s) (sym e) ∙ await_size-contents _ s.buffer s.pieces u awaited
]

await_cell-contents :
    (version : ℕ) (s t : Stream) (size : ℕ)
    → await_cell version s ≡ ok (size, t)
    → contents t ≡ contents s
unfolding await_cell
await_cell-contents version s t size h =
    let (s1, w1, h1) = >>=-eq-ok (await_size _ s.buffer s.pieces) _ h in
    let ((command, rest), _, h2) = >>=-eq-ok (Size.pop char _) _ h1 in
    let (cls, _, h3) = >>=-eq-ok (by_value command) _ h2 in
    let ((n, s2), sized, h4) = >>=-eq-ok (cell_size _ cls s1) _ h3 in
    let (s3, w3, h5) = >>=-eq-ok (await_size n s2.buffer s2.pieces) _ h4 in
    let e : s3 ≡ t = cc h5 in
    ap (λ (s : Stream). contents s) (sym e)
    ∙ await_size-contents n s2.buffer s2.pieces s3 w3
    ∙ cell_size-contents _ cls s1 n s2 sized
    ∙ await_size-contents _ s.buffer s.pieces s1 w1

-- Where a cell is received, it is the one that stands first in all the bytes of the stream, and they
-- go on with what follows it.
pub recv-pop :
    (urandom : ℕ → Bytes) (version : ℕ) (s t : Stream) (c : Cell)
    → recv urandom version s ≡ ok (c, t)
    → Wire.pop urandom (contents s) version ≡ ok (c, contents t)
unfolding recv
recv-pop urandom version s t c h =
    let ((size, u), awaited, h1) = >>=-eq-ok (await_cell version s) _ h in
    let ((d, buffer), popped, h2) = >>=-eq-ok (Wire.pop urandom u.buffer version) _ h1 in
    let (e1, e2) : (d ≡ c) × (record u { buffer = buffer } ≡ t) = (cc h2, cc h2) in
    ap (λ b. Wire.pop urandom b version) (sym (await_cell-contents version s u size awaited))
    ∙ pop-append_cell urandom version u.buffer buffer (flatten u.pieces) d popped
    ∙ rw (e1, ← e2)

-- Membership in a list, as a proposition.
abbrev pub In : ℕ → List ℕ → Type 0
In v vs = is_in v vs ≡ true

not-In : (v : ℕ) (vs : List ℕ) → ¬ (In v vs) → is_in v vs ≡ false
not-In v vs h = elim (Bool-cases (is_in v vs)) [
  | inl inside ↦ absurd (h inside)
  | inr outside ↦ outside
]

In-cons : (v w : ℕ) (vs : List ℕ) → In v (w ∷ vs) → (v ≡ w) ⊎ In v vs
unfolding is_in
In-cons v w vs h = elim (Bool-cases (v == w)) [
  | inl same ↦ inl ((==_iff v w).0 same)
  | inr other ↦ inr (rw other at h)
]

In-here : (v : ℕ) (vs : List ℕ) → In v (v ∷ vs)
unfolding is_in
In-here v vs = ground arith

here_of : (v w : ℕ) (vs : List ℕ) → v ≡ w → In v (w ∷ vs)
unfolding is_in
here_of v w vs e = ground arith

In-there : (v w : ℕ) (vs : List ℕ) → In v vs → In v (w ∷ vs)
unfolding is_in
In-there v w vs h = ground arith

-- The largest of the values, or the first where it is no smaller.
larger-max :
    (w : ℕ) (vs : List ℕ) (o : Option ℕ)
    → (o ≡ none → (v : ℕ) → In v vs → ⊥)
    → ((m : ℕ) → o ≡ some m → In m vs × ((v : ℕ) → In v vs → v ≤ m))
    → In (larger w o) (w ∷ vs) × ((v : ℕ) → In v (w ∷ vs) → v ≤ larger w o)
larger-max w vs none empty top = (
  In-here w vs,
  λ v inside. elim (In-cons v w vs inside) [
    | inl same ↦ omega arith
    | inr other ↦ absurd (empty refl v other)
  ],
)
larger-max w vs (some m) empty top =
    let (there, bound) = top m refl in
    elim (Bool-cases (ltb m w)) [
      | inl less ↦ rw less (
        In-here w vs,
        λ v inside. elim (In-cons v w vs inside) [
          | inl same ↦ omega arith
          | inr other ↦ let b = bound v other in ground arith
        ],
      )
      | inr kept ↦ rw kept (
        In-there m w vs there,
        λ v inside. elim (In-cons v w vs inside) [
          | inl same ↦ ground arith
          | inr other ↦ bound v other
        ],
      )
    ]

-- There is no maximum of no values, and otherwise it is one of them that no other exceeds.
maximum-max :
    (vs : List ℕ)
    → (maximum vs ≡ none → (v : ℕ) → In v vs → ⊥)
      × ((m : ℕ) → maximum vs ≡ some m → In m vs × ((v : ℕ) → In v vs → v ≤ m))
unfolding maximum
maximum-max [] = ((λ e v inside. unfold is_in in cc inside), (λ m e. cc e))
maximum-max (w ∷ vs) =
    let (empty, top) = maximum-max vs in
    let (inside, bound) = larger-max w vs (maximum vs) empty top in
    (
      (λ e. cc e),
      λ m e.
          let same : larger w (maximum vs) ≡ m = cc e in
          subst (λ m. In m (w ∷ vs) × ((v : ℕ) → In v (w ∷ vs) → v ≤ m)) same (inside, bound),
    )

fresh_after :
    (first : ℕ) (circuits : List ℕ) (o : Option ℕ)
    → maximum circuits ≡ o
    → ¬ (In (next_after first o) circuits)
fresh_after first circuits none e inside = (maximum-max circuits).0 e first inside
fresh_after first circuits (some m) e inside =
    let (_, bound) = (maximum-max circuits).1 m e in let b = bound (m + 1) inside in omega arith

-- The id of a new circuit is that of no circuit of the relay.
pub next_circ_id-fresh :
    (first : ℕ) (circuits : List ℕ) → is_in (next_circ_id first circuits) circuits ≡ false
unfolding next_circ_id
next_circ_id-fresh first circuits =
    not-In (next_after first (maximum circuits)) circuits
      (fresh_after first circuits (maximum circuits) refl)

common-In :
    (v : ℕ) (ours theirs : List ℕ)
    → (In v (common ours theirs) → In v ours × In v theirs)
      × (In v ours → In v theirs → In v (common ours theirs))
unfolding common
common-In v [] theirs = ((λ h. unfold is_in in cc h), (λ h. unfold is_in in cc h))
common-In v (w ∷ ours) theirs =
    let (from, to) = common-In v ours theirs in
    elim (Bool-cases (is_in w theirs)) [
      | inl named ↦ rw named (
        λ h. elim (In-cons v w (common ours theirs) h) [
          | inl same ↦ (here_of v w ours same, rw same named)
          | inr further ↦ (In-there v w ours (from further).0, (from further).1)
        ],
        λ a b. elim (In-cons v w ours a) [
          | inl same ↦ here_of v w (common ours theirs) same
          | inr further ↦ In-there v w (common ours theirs) (to further b)
        ],
      )
      | inr other ↦ rw other (
        λ h. (In-there v w ours (from h).0, (from h).1),
        λ a b. elim (In-cons v w ours a) [
          | inl same ↦ absurd (cc (rw same at b, other))
          | inr further ↦ to further b
        ],
      )
    ]

agreed_inv : (o : Option ℕ) (m : ℕ) → agreed o ≡ ok m → o ≡ some m
agreed_inv none m h = cc h
agreed_inv (some n) m h = cc h

versions_of_inv :
    (c : Cell) (theirs : List ℕ) → versions_of c ≡ ok theirs → c ≡ versions_cell theirs
versions_of_inv c theirs h = ground arith

-- The link protocol that is agreed on stands in our list and in the one of the VERSIONS cell that
-- was received, and no version that stands in both is larger.
pub negotiate-maximum :
    (urandom : ℕ → Bytes) (ours : List ℕ) (response : Bytes) (m : ℕ)
    → negotiate urandom ours response ≡ ok m
    → (theirs : List ℕ) × (rest : Bytes) × (Wire.pop urandom response 2
        ≡ ok (versions_cell theirs, rest))
      × In m ours
      × In m theirs
      × ((v : ℕ) → In v ours → In v theirs → v ≤ m)
unfolding negotiate
negotiate-maximum urandom ours response m h =
    let (_, _, h1) = >>=-eq-ok (raise_if (length response == 0) socket_error) _ h in
    let ((reply, rest), popped, h2) = >>=-eq-ok (Wire.pop urandom response 2) _ h1 in
    let (theirs, given, h3) = >>=-eq-ok (versions_of reply) _ h2 in
    let (inside, bound) = (maximum-max (common ours theirs)).1 m (agreed_inv _ m h3) in
    let (mine, other) = (common-In m ours theirs).0 inside in
    (
      theirs,
      rest,
      popped ∙ ap (λ c. ok (c, rest)) (versions_of_inv reply theirs given),
      mine,
      other,
      λ v a b. bound v ((common-In v ours theirs).1 a b),
    )
