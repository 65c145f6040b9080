-- ===== src/Prelude/Outcome.antt =====
-- What a call of fallible code gives: a value, an error of the code's own type, or a fault, which is
-- a read or a write outside of the memory that the code was given.
pub data Outcome (E A : Type 0) : Type 0 where
  done : A → Outcome E A
  failed : E → Outcome E A
  fault : Outcome E A

infixl 5 ◌>>=◌
abbrev pub ◌>>=◌ : {E A B : Type 0} → Outcome E A → (A → Outcome E B) → Outcome E B
done a >>= f = f a
failed e >>= f = failed e
fault >>= f = fault
