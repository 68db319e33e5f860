-- ===== src/Client/Cell/Payload/Loops.antt =====
-- The loops over the payloads of the VERSIONS and CERTS cells.

use stem.Base.{
  ℕ, zero, suc, ◌*◌, ◌≤◌, ◌<◌, List, [], ◌∷◌, ◌++◌, ◌≡◌, ◌≢◌, refl, arith, Bytes, length, All, num,
}
use stem.Base.{
  ok, err, stuck, ◌>>=◌, >>=-eq-err, inl, inr, pair-eq-ok, append_assoc, length-append, length-drop,
}
use stem.Client.Datatype.Size
use stem.Client.Datatype.Size.{char, short, long}
use stem.Client.Datatype.Size.Laws.{pop-pack, length-pack, pack_num, pop_inv, pop-err}
use stem.Client.Datatype.Field.{pack_all}
use stem.Client.Datatype.Certificate
use stem.Client.Datatype.Certificate.{Certificate}
use stem.Client.Datatype.Certificate.Laws as Certificates
use stem.Client.Cell.Payload.{shorts, pop_versions, pop_certs}

pub All-shorts : (xs : List ℕ) → All (λ (v : ℕ). Unit {0}) xs
All-shorts [] = tt
All-shorts (x ∷ xs) = (tt, All-shorts xs)

pub length-pack_shorts :
    (xs : List ℕ) (bs : Bytes) → pack_all shorts xs ≡ ok bs → length bs ≡ length xs * 2
unfolding pack_all
length-pack_shorts [] bs h = let e : [] ≡ bs = cc h in rw (← e)
length-pack_shorts (x ∷ xs) bs h =
    let (b1, b2, p1, p2, e) =
      pair-eq-ok (Size.pack short (num x)) (pack_all shorts xs) (λ p q. p ++ q) h in
    rw (← e)
      (omega (arith, length-append b1 b2, length-pack short x b1 p1, length-pack_shorts xs b2 p2))

pop_versions_step :
    (fuel : ℕ) (content : Bytes)
    → 0 < length content
    → pop_versions (suc fuel) content ≡ (
        Size.pop short content >>= λ (version, rest).
        pop_versions fuel rest >>= λ link_protocols. ok (version ∷ link_protocols))
unfolding pop_versions
pop_versions_step fuel [] h = ground arith
pop_versions_step fuel (b ∷ content) h = refl

-- With fuel for each of them, the versions are popped as they were packed.
pub pop_versions-pack_all :
    (fuel : ℕ) (xs : List ℕ) (bs : Bytes)
    → length xs ≤ fuel
    → pack_all shorts xs ≡ ok bs
    → pop_versions fuel bs ≡ ok xs
unfolding pack_all
pop_versions-pack_all fuel [] bs h packed =
    let e : [] ≡ bs = cc packed in rw (← e) (unfold pop_versions in refl)
pop_versions-pack_all zero (x ∷ xs) bs h packed = ground arith
pop_versions-pack_all (suc fuel) (x ∷ xs) bs h packed =
    let (b1, b2, p1, p2, e) =
      pair-eq-ok (Size.pack short (num x)) (pack_all shorts xs) (λ p q. p ++ q) packed in
    let some_content : 0 < length (b1 ++ b2) =
      omega (arith, length-append b1 b2, length-pack short x b1 p1) in
    let more : length xs ≤ fuel = omega arith in
    rw (← e, pop_versions_step fuel (b1 ++ b2) some_content, pop-pack short x b1 b2 p1)
      (rw (pop_versions-pack_all fuel xs b2 more p2))

-- The loop ends for any payload: fuel for each byte is enough.
pub pop_versions-enough :
    (fuel : ℕ) (content : Bytes) → length content ≤ fuel → pop_versions fuel content ≢ err stuck
unfolding pop_versions
pop_versions-enough fuel [] h e = cc e
pop_versions-enough zero (b ∷ content) h e = omega arith
pop_versions-enough (suc fuel) (b ∷ content) h e =
    elim (>>=-eq-err (Size.pop short (b ∷ content)) _ e) [
      | inl unread ↦ cc (pop-err short (b ∷ content) stuck unread)
      | inr (p, popped, more) ↦ elim (>>=-eq-err (pop_versions fuel p.1) _ more) [
        | inl stopped ↦
            let (_, _, rest) = pop_inv short (b ∷ content) p.1 p.0 popped in
            let fewer : length p.1 ≤ fuel = rw rest (omega (arith, length-drop 2 (b ∷ content))) in
            pop_versions-enough fuel p.1 fewer stopped
        | inr (q, _, same) ↦ cc same
      ]
    ]

pop_certs_step :
    (count : ℕ) (content : Bytes)
    → 0 < length content
    → pop_certs (suc count) content ≡ (
        Certificate.pop content >>= λ (cert, rest).
        pop_certs count rest >>= λ (popped, rest). ok (cert ∷ popped, rest))
unfolding pop_certs
pop_certs_step count [] h = ground arith
pop_certs_step count (b ∷ content) h = refl

length-pack_cert : (c : Certificate) (bs : Bytes) → Certificate.pack c ≡ ok bs → 0 < length bs
unfolding Certificate.pack
length-pack_cert c bs h =
    let (b1, b2, p1, p2, e) =
      pair-eq-ok (Size.pack char c.type_int) (Size.pack short (num (length c.value)))
        (λ k s. k ++ (s ++ c.value)) h in
    let (n, is_num) = pack_num char c.type_int b1 p1 in
    rw (← e)
      (omega (arith, length-append b1 (b2 ++ c.value), length-pack char n b1 (rw is_num at p1)))

pub pop_certs-pack_all :
    (xs : List Certificate) (bs rest : Bytes)
    → All Certificates.Constructed xs
    → pack_all Certificates.field xs ≡ ok bs
    → pop_certs (length xs) (bs ++ rest) ≡ ok (xs, rest)
unfolding pack_all
pop_certs-pack_all [] bs rest made packed =
    let e : [] ≡ bs = cc packed in rw (← e) (unfold pop_certs in refl)
pop_certs-pack_all (x ∷ xs) bs rest made packed =
    let (b1, b2, p1, p2, e) =
      pair-eq-ok (Certificate.pack x) (pack_all Certificates.field xs) (λ p q. p ++ q) packed in
    let some_content : 0 < length (b1 ++ (b2 ++ rest)) =
      omega (arith, length-append b1 (b2 ++ rest), length-pack_cert x b1 p1) in
    rw
      (
        ← e,
        append_assoc,
        pop_certs_step (length xs) (b1 ++ (b2 ++ rest)) some_content,
        Certificates.pop-pack x b1 (b2 ++ rest) made.0 p1,
      )
      (rw (pop_certs-pack_all xs b2 rest made.1 p2))
