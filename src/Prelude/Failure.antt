-- ===== src/Prelude/Failure.antt =====
-- Exceptions and transactions. A thrown exception is a value; `sql.begin` runs its body on the
-- rows and keeps what it wrote only if it returns, which is what PostgreSQL's rollback does.
use Prim.Native.Nat.{ℕ}
use Prim.Native.String.{String}
use mathlib.Core.Bool.{Bool, true, false}
use mathlib.Core.Path.{◌≡◌, refl}
use mathlib.Core.Logic.{◌⊎◌, inl, inr}
use mathlib.Core.Option.{Option, none, some}

-- `Error`, `ExecutionRejected`, `Deferred` (with its delay in seconds), `ApprovalError` and
-- `OperationsError`.
pub data Exception : Type 0 where
  error : String → Exception
  execution_rejected : String → Exception
  deferred : String → ℕ → Exception
  approval_error : String → Exception
  operations_error : String → Exception

pub data Result (A : Type 0) : Type 0 where
  ok : A → Result A
  err : Exception → Result A

-- The body of a transaction over rows of type `S`.
abbrev pub Tx : Type 0 → Type 0 → Type 0
Tx S A = S → Result (A × S)

-- A call: its result and the rows it leaves, whether it returned or threw.
abbrev pub Call : Type 0 → Type 0 → Type 0
Call S A = S → Result A × S

module _ {S A B : Type 0} where
  infixl 5 ◌>>=◌ ◌>>◌
  abbrev pub ◌>>=◌ : Tx S A → (A → Tx S B) → Tx S B
  ◌>>=◌ m f s = elim (m s) [ ok (a, s') ↦ f a s' | err e ↦ err e ]

  abbrev pub ◌>>◌ : Tx S A → Tx S B → Tx S B
  ◌>>◌ m k s = elim (m s) [ ok (a, s') ↦ k s' | err e ↦ err e ]

module _ {S A : Type 0} where
  abbrev pub pure : A → Tx S A
  pure a s = ok (a, s)

  abbrev pub throw : Exception → Tx S A
  throw e s = err e

  abbrev pub gets : (S → A) → Tx S A
  gets f s = ok (f s, s)

  abbrev pub or_throw : Option A → Exception → Tx S A
  or_throw none e = throw e
  or_throw (some a) e = pure a

  -- `sql.begin`: commit on return, roll back on a throw.
  abbrev pub commit : S → Result (A × S) → Result A × S
  commit s (ok (a, s')) = (ok a, s')
  commit s (err e) = (err e, s)

  abbrev pub begin : Tx S A → Call S A
  begin m s = commit s (m s)

module _ {S : Type 0} where
  abbrev pub modify : (S → S) → Tx S (Unit {0})
  modify f s = ok (tt, f s)

  abbrev pub throw_if : Bool → Exception → Tx S (Unit {0})
  throw_if true e s = err e
  throw_if false e s = ok (tt, s)

  abbrev pub done : Tx S (Unit {0})
  done s = ok (tt, s)

pub Result-cases :
    {A : Type 0} (r : Result A) → ((a : A) × (r ≡ ok a)) ⊎ ((e : Exception) × (r ≡ err e))
Result-cases (ok a) = inl (a, refl)
Result-cases (err e) = inr (e, refl)
