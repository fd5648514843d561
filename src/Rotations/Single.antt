-- ===== src/Rotations/Single.antt =====
-- packages/database/src/rotations.ts: what holds of a treasury's rotations however the operations of
-- `RotationStore` follow each other.
use mathlib.Core.Option.{some-injective, none-ne-some}
use ai_neobank.Prelude.{
  ℕ, ◌+◌, ◌≤◌, ◌≡◌, refl, inl, inr, true, false, String, Option, none, some, List, [], ◌∷◌, ◌++◌,
  if◌then◌else◌, arith, any, find, All, Bool-cases,
}
use ai_neobank.Prelude.Equality.{◌==◌, nat_eq}
use ai_neobank.Domain.{squads}
use ai_neobank.Rotations.{
  ExecutorRotationRecord, Treasury, Rows, is_open, is_open_of, treasury_row, update_rotation,
  set_executor, has_id,
}

abbrev pub openness : ℕ → ExecutorRotationRecord → ℕ
openness treasury r = if is_open_of treasury r then 1 else 0

abbrev pub open_rotations : ℕ → List ExecutorRotationRecord → ℕ
open_rotations treasury [] = 0
open_rotations treasury (r ∷ rs) = openness treasury r + open_rotations treasury rs

-- The treasury is a Squads one, and its executor is the given signer.
abbrev pub IsExecutedBy : ℕ → Option Treasury → Type 0
IsExecutedBy signer none = ⊥
IsExecutedBy signer (some t) = (t.governance ≡ squads) × (t.executor_signer_id ≡ some signer)

abbrev pub IsHeld : List Treasury → ExecutorRotationRecord → Type 0
IsHeld ts r =
    is_open r.status ≡ true → IsExecutedBy r.from_signer_id (treasury_row r.treasury_account_id ts)

-- At most one rotation of a treasury is open, and an open one starts from the executor it has.
pub record IsSingle (w : Rows) : Type 0 where
  pub single : (treasury : ℕ) → open_rotations treasury w.rotations ≤ 1
  pub held : All (IsHeld w.treasuries) w.rotations

pub open_rotations-append :
    (treasury : ℕ) (rs : List ExecutorRotationRecord) (r : ExecutorRotationRecord)
    → open_rotations treasury (rs ++ r ∷ []) ≡ open_rotations treasury rs + openness treasury r
open_rotations-append treasury [] r = omega arith
open_rotations-append treasury (q ∷ rs) r = omega (arith, open_rotations-append treasury rs r)

pub openness-le_one : (treasury : ℕ) (r : ExecutorRotationRecord) → openness treasury r ≤ 1
openness-le_one treasury r = elim (Bool-cases (is_open_of treasury r)) [
  | inl here ↦ rw here (omega arith)
  | inr away ↦ rw away (omega arith)
]

pub openness-elsewhere :
    (treasury : ℕ) (r : ExecutorRotationRecord)
    → (r.treasury_account_id == treasury) ≡ false
    → openness treasury r ≡ 0
openness-elsewhere treasury r away = elim (Bool-cases (is_open r.status)) [
  | inl opened ↦ rw (opened, away) refl
  | inr shut ↦ rw shut refl
]

pub none_open :
    (treasury : ℕ) (rs : List ExecutorRotationRecord)
    → any (is_open_of treasury) rs ≡ false
    → open_rotations treasury rs ≡ 0
none_open treasury [] h = refl
none_open treasury (r ∷ rs) h = ground (arith, none_open treasury rs)

module _ (id : ℕ) (f : ExecutorRotationRecord → ExecutorRotationRecord)
    (r : ExecutorRotationRecord) where
  pub open_rotations-update :
      (treasury : ℕ) (rs : List ExecutorRotationRecord)
      → find (has_id id) rs ≡ some r
      → open_rotations treasury (update_rotation id f rs) + openness treasury r
        ≡ open_rotations treasury rs + openness treasury (f r)
  unfolding update_rotation
  open_rotations-update treasury [] found = absurd (none-ne-some r found)
  open_rotations-update treasury (q ∷ rs) found = elim (Bool-cases (has_id id q)) [
    | inl met ↦ rw (met, some-injective q r (rw met at found)) (omega arith)
    | inr unmet ↦ rw unmet (omega (arith, open_rotations-update treasury rs (rw unmet at found)))
  ]

  pub All-update :
      (P : ExecutorRotationRecord → Type 0)
      → (P r → P (f r))
      → (rs : List ExecutorRotationRecord) → find (has_id id) rs ≡ some r
      → All P rs
      → All P (update_rotation id f rs)
  unfolding update_rotation
  All-update P keep [] found h = tt
  All-update P keep (q ∷ rs) found h = elim (Bool-cases (has_id id q)) [
    | inl met ↦
        let same = some-injective q r (rw met at found) in rw met (rw (← same) at keep h.0, h.1)
    | inr unmet ↦ rw unmet (h.0, All-update P keep rs (rw unmet at found) h.1)
  ]

unlike : (a other id : ℕ) → (a == id) ≡ true → (other == id) ≡ false → (a == other) ≡ false
unlike a other id same h = ground arith

other_treasury :
    (id : ℕ) (r : ExecutorRotationRecord)
    → is_open r.status ≡ true
    → openness id r ≡ 0
    → (r.treasury_account_id == id) ≡ false
other_treasury id r open_r zero = elim (Bool-cases (r.treasury_account_id == id)) [
  | inl same ↦ absurd (omega (arith, rw (open_r, same) at zero))
  | inr other ↦ other
]

module _ (id signer : ℕ) (merged : List String) where
  treasury_row-set_executor :
      (other : ℕ) (ts : List Treasury)
      → (other == id) ≡ false
      → treasury_row other (set_executor id signer merged ts) ≡ treasury_row other ts
  unfolding treasury_row set_executor
  treasury_row-set_executor other [] h = refl
  treasury_row-set_executor other (t ∷ ts) h = elim (Bool-cases (t.id == id)) [
    | inl same ↦ rw (same, unlike t.id other id same h) (treasury_row-set_executor other ts h)
    | inr other_id ↦ rw other_id (elim (Bool-cases (t.id == other)) [
      | inl found ↦ rw found refl
      | inr passed ↦ rw passed (treasury_row-set_executor other ts h)
    ])
  ]

  -- With no rotation of the treasury open, its executor may change.
  pub IsHeld-set_executor :
      (ts : List Treasury) (rs : List ExecutorRotationRecord)
      → open_rotations id rs ≡ 0
      → All (IsHeld ts) rs
      → All (IsHeld (set_executor id signer merged ts)) rs
  IsHeld-set_executor ts [] none_left h = tt
  IsHeld-set_executor ts (r ∷ rs) none_left h = (
    λ open_r.
        let elsewhere = other_treasury id r open_r (omega (arith, none_left)) in
        rw (treasury_row-set_executor r.treasury_account_id ts elsewhere) (h.0 open_r),
    IsHeld-set_executor ts rs (omega (arith, none_left)) h.1,
  )
