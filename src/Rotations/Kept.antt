-- ===== src/Rotations/Kept.antt =====
-- packages/database/src/rotations.ts: each operation of `RotationStore` keeps the rows single.
use mathlib.Core.Option.{some-injective, some-ne-none, none-ne-some}
use ai_neobank.Prelude.{
  ℕ, ◌≡◌, ◌≤◌, refl, ap, inl, inr, Bool, true, String, Option, none, some, List, [], ◌∷◌, arith,
  find, All, Bool-cases, Option-cases,
}
use ai_neobank.Prelude.Equality.{◌==◌, nat_eq, beq_refl}
use ai_neobank.Rotations.{
  RotationStatus, ExecutorRotationRecord, Treasury, Rows, Outcome, is_open, has_id, treasury_row,
  update_rotation, update_row, set_executor, on_row, publish_row, move_on, complete_row,
  record_publication, published, observed, complete, fail, is_publishing, is_approval_required,
  is_executing, set_status, fail_row,
}
use ai_neobank.Rotations.Single.{
  IsSingle, IsHeld, IsExecutedBy, open_rotations, openness, open_rotations-update, All-update,
  IsHeld-set_executor,
}

IsSingle-with :
    (w v : Rows) → v.treasuries ≡ w.treasuries → v.rotations ≡ w.rotations → IsSingle w → IsSingle v
IsSingle-with w v same_treasuries same k = record {
  single = rw same k.single;
  held = rw (same_treasuries, same) k.held;
}

openness-le :
    (treasury : ℕ) (q r : ExecutorRotationRecord)
    → q.treasury_account_id ≡ r.treasury_account_id
    → (is_open q.status ≡ true → is_open r.status ≡ true)
    → openness treasury q ≤ openness treasury r
openness-le treasury q r same opened = elim (Bool-cases (is_open q.status)) [
  | inl open_status ↦ rw (open_status, opened open_status, same) (omega arith)
  | inr shut ↦ rw shut (omega arith)
]

-- A change of a row that opens nothing and keeps the row's treasury and the signer it starts from.
record IsMove (f : ExecutorRotationRecord → ExecutorRotationRecord) (r : ExecutorRotationRecord)
    : Type 0 where
  same_treasury : (f r).treasury_account_id ≡ r.treasury_account_id
  same_signer : (f r).from_signer_id ≡ r.from_signer_id
  opens_nothing : is_open (f r).status ≡ true → is_open r.status ≡ true

executing-open : (s : RotationStatus) → is_executing s ≡ true → is_open s ≡ true
executing-open s h = ground arith

publishing-open : (s : RotationStatus) → is_publishing s ≡ true → is_open s ≡ true
publishing-open s h = ground arith

waiting-open : (s : RotationStatus) → is_approval_required s ≡ true → is_open s ≡ true
waiting-open s h = ground arith

module _ (id : ℕ) (f : ExecutorRotationRecord → ExecutorRotationRecord) where
  update_row-IsSingle :
      (r : ExecutorRotationRecord) (w : Rows)
      → find (has_id id) w.rotations ≡ some r
      → IsMove f r
      → IsSingle w
      → IsSingle (update_row id f w)
  update_row-IsSingle r w found m k = record {
    single = λ treasury. omega (
      arith,
      k.single treasury,
      open_rotations-update id f r treasury w.rotations found,
      openness-le treasury (f r) r m.same_treasury m.opens_nothing,
    );
    held =
        All-update id f r (IsHeld w.treasuries)
          (λ h o. rw (m.same_treasury, m.same_signer) (h (m.opens_nothing o))) w.rotations found
          k.held;
  }

  update_rotation_absent :
      (rs : List ExecutorRotationRecord) → find (has_id id) rs ≡ none → update_rotation id f rs ≡ rs
  unfolding update_rotation
  update_rotation_absent [] absent = refl
  update_rotation_absent (q ∷ rs) absent = elim (Bool-cases (has_id id q)) [
    | inl met ↦ absurd (some-ne-none q (rw met at absent))
    | inr unmet ↦ rw unmet (ap (λ t. q ∷ t) (update_rotation_absent rs (rw unmet at absent)))
  ]

pub record_publication-IsSingle :
    (id : ℕ) (publication : String) (w : Rows)
    → IsSingle w
    → IsSingle (record_publication id publication w)
unfolding record_publication
record_publication-IsSingle id publication w k =
    let store = λ (r : ExecutorRotationRecord). record r { publication = some publication } in
    elim (Option-cases (find (has_id id) w.rotations)) [
      | inl absent ↦ IsSingle-with w _ refl (update_rotation_absent id store w.rotations absent) k
      | inr (r, found) ↦
          update_row-IsSingle id store r w found
            (record { same_treasury = refl; same_signer = refl; opens_nothing = λ o. o }) k
    ]

-- An operation on a row keeps the rows single if what it does to the row that it finds does.
on_row-IsSingle :
    (id : ℕ) (p : RotationStatus → Bool) (change : ExecutorRotationRecord → Rows → Rows) (w : Rows)
    → IsSingle w
    → ((r : ExecutorRotationRecord)
        → find (has_id id) w.rotations ≡ some r
        → p r.status ≡ true
        → IsSingle (change r w))
    → IsSingle (on_row id p change w)
on_row-IsSingle id p change w k kept = elim (Option-cases (find (has_id id) w.rotations)) [
  | inl absent ↦ rw absent k
  | inr (r, found) ↦ rw found (elim (Bool-cases (p r.status)) [
    | inl met ↦ rw met (kept r found met)
    | inr unmet ↦ rw unmet k
  ])
]

pub published-IsSingle :
    (id : ℕ) (external_ref : String) (w : Rows)
    → IsSingle w
    → IsSingle (published id external_ref w)
unfolding published
published-IsSingle id external_ref w k = on_row-IsSingle id is_publishing _ w k (λ r found met.
    IsSingle-with (update_row id (publish_row external_ref) w) _ refl refl (
      update_row-IsSingle id (publish_row external_ref) r w found
        (record {
          same_treasury = refl;
          same_signer = refl;
          opens_nothing = λ o. publishing-open r.status met;
        })
        k))

set_status-IsSingle :
    (id : ℕ) (status : RotationStatus) (r : ExecutorRotationRecord) (w : Rows)
    → find (has_id id) w.rotations ≡ some r
    → is_open r.status ≡ true
    → IsSingle w
    → IsSingle (update_row id (set_status status) w)
set_status-IsSingle id status r w found opened k =
    update_row-IsSingle id (set_status status) r w found
      (record { same_treasury = refl; same_signer = refl; opens_nothing = λ o. opened }) k

move_on-IsSingle :
    (id : ℕ) (outcome : Outcome) (r : ExecutorRotationRecord) (w : Rows)
    → find (has_id id) w.rotations ≡ some r
    → is_open r.status ≡ true
    → IsSingle w
    → IsSingle (move_on id outcome w)
move_on-IsSingle id Outcome.pending r w found opened k = IsSingle-with w _ refl refl k
move_on-IsSingle id Outcome.rejected r w found opened k =
    set_status-IsSingle id RotationStatus.rejected r w found opened k
move_on-IsSingle id Outcome.approved r w found opened k =
    IsSingle-with (update_row id (set_status RotationStatus.executing) w) _ refl refl
      (set_status-IsSingle id RotationStatus.executing r w found opened k)

pub observed-IsSingle :
    (id : ℕ) (outcome : Outcome) (w : Rows) → IsSingle w → IsSingle (observed id outcome w)
unfolding observed
observed-IsSingle id outcome w k =
    on_row-IsSingle id is_approval_required _ w k
      (λ r found met. move_on-IsSingle id outcome r w found (waiting-open r.status met) k)

pub fail-IsSingle : (id : ℕ) (reason : String) (w : Rows) → IsSingle w → IsSingle (fail id reason w)
unfolding fail
fail-IsSingle id reason w k = on_row-IsSingle id is_open _ w k (λ r found met.
    update_row-IsSingle id (fail_row reason) r w found
      (record { same_treasury = refl; same_signer = refl; opens_nothing = λ o. met }) k)

openness-own :
    (r : ExecutorRotationRecord) → is_open r.status ≡ true → openness r.treasury_account_id r ≡ 1
openness-own r opened = rw (opened, beq_refl r.treasury_account_id) refl

-- The last open rotation of the treasury is closed, and the executor is the new signer.
complete_row-IsSingle :
    (id : ℕ) (configuration : String) (r : ExecutorRotationRecord) (w : Rows)
    → find (has_id id) w.rotations ≡ some r
    → is_open r.status ≡ true
    → IsSingle w
    → IsSingle (complete_row id configuration r w)
complete_row-IsSingle id configuration r w found opened k =
    let closed = set_status-IsSingle id RotationStatus.completed r w found opened k in
    let none_left : open_rotations r.treasury_account_id
          (update_rotation id (set_status RotationStatus.completed) w.rotations)
        ≡ 0 =
      omega (
        arith,
        openness-own r opened,
        k.single r.treasury_account_id,
        open_rotations-update id (set_status RotationStatus.completed) r r.treasury_account_id
            w.rotations found,
      ) in
    record {
      single = closed.single;
      held =
          IsHeld-set_executor r.treasury_account_id r.to_signer_id (configuration ∷ []) w.treasuries
            _ none_left closed.held;
    }

pub complete-IsSingle :
    (id : ℕ) (configuration : String) (w : Rows)
    → IsSingle w
    → IsSingle (complete id configuration w)
unfolding complete
complete-IsSingle id configuration w k =
    on_row-IsSingle id is_executing (complete_row id configuration) w k (λ r found met.
      complete_row-IsSingle id configuration r w found (executing-open r.status met) k)

find-All :
    (P : ExecutorRotationRecord → Type 0) (p : ExecutorRotationRecord → Bool)
    (rs : List ExecutorRotationRecord) (r : ExecutorRotationRecord)
    → find p rs ≡ some r
    → All P rs
    → P r
find-All P p [] r found h = absurd (none-ne-some r found)
find-All P p (q ∷ rs) r found h = elim (Bool-cases (p q)) [
  | inl met ↦ rw (some-injective q r (rw met at found)) at h.0
  | inr unmet ↦ find-All P p rs r (rw unmet at found) h.1
]

-- The executor of a treasury, if there is one.
abbrev pub executor_in : Option Treasury → Option ℕ
executor_in none = none
executor_in (some t) = t.executor_signer_id

abbrev pub executor_of : ℕ → Rows → Option ℕ
executor_of treasury w = executor_in (treasury_row treasury w.treasuries)

executor_in-set_executor :
    (id signer : ℕ) (merged : List String) (from : ℕ) (ts : List Treasury)
    → IsExecutedBy from (treasury_row id ts)
    → executor_in (treasury_row id (set_executor id signer merged ts)) ≡ some signer
unfolding treasury_row set_executor
executor_in-set_executor id signer merged from [] h = absurd h
executor_in-set_executor id signer merged from (t ∷ ts) h = elim (Bool-cases (t.id == id)) [
  | inl same ↦ rw (same, same) refl
  | inr other ↦
      rw (other, other) (executor_in-set_executor id signer merged from ts (rw other at h))
]

-- From rows that are single, completing the executing rotation of a treasury hands the treasury
-- over: its executor is the new signer, and no rotation of it is open.
pub complete-hands_over :
    (id : ℕ) (configuration : String) (r : ExecutorRotationRecord) (w : Rows)
    → IsSingle w
    → find (has_id id) w.rotations ≡ some r
    → is_executing r.status ≡ true
    → (executor_of r.treasury_account_id (complete id configuration w) ≡ some r.to_signer_id)
      × (open_rotations r.treasury_account_id (complete id configuration w).rotations ≡ 0)
unfolding complete
complete-hands_over id configuration r w k found executing =
    let opened = executing-open r.status executing in
    rw (found, executing)
      (
        executor_in-set_executor r.treasury_account_id r.to_signer_id (configuration ∷ [])
            r.from_signer_id w.treasuries
            (find-All (IsHeld w.treasuries) (has_id id) w.rotations r found k.held opened),
        omega (
          arith,
          openness-own r opened,
          k.single r.treasury_account_id,
          open_rotations-update id (set_status RotationStatus.completed) r r.treasury_account_id
              w.rotations found,
        ),
      )
