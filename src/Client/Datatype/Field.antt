-- ===== src/Client/Datatype/Field.antt =====
-- `Field` of client/datatype.py: what a packable type provides, and what the cells make of it.
use stem.Base.{ℕ, zero, suc, List, [], ◌∷◌, ◌++◌, ◌≡◌, Bytes, length, All, append_assoc}
use stem.Base.{Result, ok, err, value_error, ◌>>=◌, pair-eq-ok, append-nil}

-- The operations of a field type, and that it pops what it packed, whatever follows.
pub record Field (A : Type 0) : Type 1 where
  pub pack : A → Result Bytes
  pub pop : Bytes → Result (A × Bytes)
  pub OnWire : A → Type 0
  pub pop-pack :
      (a : A) (bs rest : Bytes) → OnWire a → pack a ≡ ok bs → pop (bs ++ rest) ≡ ok (a, rest)

abbrev no_remainder {ℓ} : {A : Type ℓ} → A × Bytes → Result A
no_remainder (unpacked, []) = ok unpacked
no_remainder (unpacked, b ∷ bs) = err value_error

module _ {A : Type 0} (field : Field A) where
  -- `cls.unpack(packed)`: nothing may be left over.
  unfoldable pub unpack : Bytes → Result A
  unpack packed = field.pop packed >>= no_remainder

  -- `b''.join([x.pack() for x in xs])`
  unfoldable pub pack_all : List A → Result Bytes
  pack_all [] = ok []
  pack_all (x ∷ xs) = do packed ← field.pack x; more ← pack_all xs; ok (packed ++ more)

  -- `for i in range(count): x, content = cls.pop(content); xs.append(x)`
  unfoldable pub pop_many : ℕ → Bytes → Result (List A × Bytes)
  pop_many zero content = ok ([], content)
  pop_many (suc count) content = do
    (x, content) ← field.pop content
    (xs, content) ← pop_many count content
    ok (x ∷ xs, content)

  pub unpack-pack : (a : A) (bs : Bytes) → field.OnWire a → field.pack a ≡ ok bs → unpack bs ≡ ok a
  unfolding unpack
  unpack-pack a bs wire packed = rw (rw append-nil at (field.pop-pack a bs [] wire packed))

  -- So many fields are popped as were packed one behind the other, in their order, if each of them
  -- is one that is popped as it was packed.
  pub pop_many-pack_all :
      (xs : List A) (bs rest : Bytes)
      → All field.OnWire xs
      → pack_all xs ≡ ok bs
      → pop_many (length xs) (bs ++ rest) ≡ ok (xs, rest)
  unfolding pack_all pop_many
  pop_many-pack_all [] bs rest wire packed = let e : [] ≡ bs = cc packed in rw (← e)
  pop_many-pack_all (x ∷ xs) bs rest wire packed =
      let (p, more, first, others, e) =
        pair-eq-ok (field.pack x) (pack_all xs) (λ p q. p ++ q) packed in
      rw (← e, append_assoc, field.pop-pack x p (more ++ rest) wire.0 first)
        (rw (pop_many-pack_all xs more rest wire.1 others))
