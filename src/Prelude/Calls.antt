-- ===== src/Prelude/Calls.antt =====
-- Calls in sequence. What an earlier call committed stays, also where a later one throws.
use ai_neobank.Prelude.Failure.{Result, ok, err, Call}

module _ {S A B : Type 0} where
  abbrev pub continue : Result A × S → (A → Call S B) → Result B × S
  continue (ok a, s) f = f a s
  continue (err e, s) f = (err e, s)

  infixl 5 ◌>>=◌
  abbrev pub ◌>>=◌ : Call S A → (A → Call S B) → Call S B
  ◌>>=◌ m f s = continue (m s) f

module _ {S B : Type 0} where
  infixl 5 ◌>>◌
  abbrev pub ◌>>◌ : Call S (Unit {0}) → Call S B → Call S B
  ◌>>◌ m k s = continue (m s) (λ _. k)

module _ {S A : Type 0} where
  abbrev pub answer : Result A → Call S A
  answer r s = (r, s)
