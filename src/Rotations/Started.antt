-- ===== src/Rotations/Started.antt =====
-- packages/database/src/rotations.ts: what `start` commits, and the whole life of the rotations.
use ai_neobank.Prelude.{
  ℕ, ◌≡◌, ◌≤◌, refl, inl, inr, Bool, true, false, not, String, Option, none, some, [], ◌∷◌, ◌++◌,
  ◌&&◌, if◌then◌else◌, arith, any, All-append_one, Bool-cases,
}
use ai_neobank.Prelude.Equality.{◌==◌, nat_eq}
use ai_neobank.Prelude.Failure.{Result, ok, err}
use ai_neobank.Domain.{Governance, squads}
use ai_neobank.Rotations.{
  RotationStatus, Treasury, Signer, Rows, Outcome, is_open_of, treasury_row, is_busy, same_family,
  record_publication, published, observed, complete, fail, in_organization, is_safe, is_direct,
}
use ai_neobank.Rotations.Start.{
  new_rotation, start, start_at, start_from, start_to, rotate_now, rotate_on_chain,
}
use ai_neobank.Rotations.Single.{
  IsSingle, IsHeld, open_rotations, openness-le_one, openness-elsewhere, open_rotations-append,
  none_open, IsHeld-set_executor,
}
use ai_neobank.Rotations.Kept.{
  record_publication-IsSingle, published-IsSingle, observed-IsSingle, complete-IsSingle,
  fail-IsSingle,
}

abbrev Commits-IsSingle : Result (ℕ × Rows) → Type 0
Commits-IsSingle (ok (id, w)) = IsSingle w
Commits-IsSingle (err e) = Unit

if-Commits :
    (b : Bool) (x y : Result (ℕ × Rows))
    → (b ≡ true → Commits-IsSingle x)
    → (b ≡ false → Commits-IsSingle y)
    → Commits-IsSingle (if b then x else y)
if-Commits true x y kept other = kept refl
if-Commits false x y kept other = other refl

squads-only : (g : Governance) → is_direct g ≡ false → is_safe g ≡ false → g ≡ squads
squads-only g not_direct not_safe = ground arith

module _ (fresh organization treasury to actor : ℕ) (w : Rows) (k : IsSingle w) where
  rotate_now-IsSingle :
      (from : ℕ)
      → any (is_open_of treasury) w.rotations ≡ false
      → IsSingle (rotate_now fresh organization treasury to actor from w)
  rotate_now-IsSingle from idle =
      let row = new_rotation fresh organization treasury to actor from RotationStatus.completed in
      let appended = λ (t : ℕ). open_rotations-append t w.rotations row in
      record {
        single = λ t. omega (arith, appended t, k.single t);
        held =
            IsHeld-set_executor treasury to [] w.treasuries (w.rotations ++ row ∷ [])
              (omega (arith, appended treasury, none_open treasury w.rotations idle))
              (All-append_one (IsHeld w.treasuries) w.rotations row k.held (λ o. absurd (cc)));
      }

  single-append :
      (from t : ℕ)
      → any (is_open_of treasury) w.rotations ≡ false
      → open_rotations t (
          w.rotations
          ++ new_rotation fresh organization treasury to actor from RotationStatus.publishing ∷ [])
        ≤ 1
  single-append from t idle =
      let row = new_rotation fresh organization treasury to actor from RotationStatus.publishing in
      elim (Bool-cases (treasury == t)) [
        | inl same ↦
            let here = (nat_eq.beq_iff treasury t).0 same in
            rw (← here) (
              omega (
                arith,
                none_open treasury w.rotations idle,
                openness-le_one treasury row,
                open_rotations-append treasury w.rotations row,
              ))
        | inr other ↦ omega (
          arith,
          k.single t,
          openness-elsewhere t row other,
          open_rotations-append t w.rotations row,
        )
      ]

  rotate_on_chain-IsSingle :
      (t : Treasury) (from : ℕ)
      → treasury_row treasury w.treasuries ≡ some t
      → t.governance ≡ squads
      → t.executor_signer_id ≡ some from
      → any (is_open_of treasury) w.rotations ≡ false
      → IsSingle (rotate_on_chain fresh organization treasury to actor from w)
  rotate_on_chain-IsSingle t from found governed executed idle = record {
    single = λ u. single-append from u idle;
    held =
        All-append_one (IsHeld w.treasuries) w.rotations
          (new_rotation fresh organization treasury to actor from RotationStatus.publishing) k.held
          (λ o. rw found (governed, executed));
  }

  start_to-IsSingle :
      (t : Treasury) (from : ℕ) (s : Option Signer)
      → treasury_row treasury w.treasuries ≡ some t
      → is_direct t.governance ≡ false
      → t.executor_signer_id ≡ some from
      → Commits-IsSingle (start_to fresh organization treasury to actor t from s w)
  start_to-IsSingle t from none found governed executed = tt
  start_to-IsSingle t from (some s) found governed executed =
      if-Commits (not (s.is_active && same_family s.chain_family t.chain_family)) _ _ (λ e. tt)
        (λ e.
          if-Commits (any (is_busy treasury) w.intents) _ _ (λ e. tt)
            (λ e.
              if-Commits (any (is_open_of treasury) w.rotations) _ _ (λ e. tt)
                (λ idle.
                  if-Commits (is_safe t.governance) _ _ (λ e. rotate_now-IsSingle from idle)
                    (λ not_safe.
                      rotate_on_chain-IsSingle t from found
                        (squads-only t.governance governed not_safe) executed idle))))

  start_from-IsSingle :
      (t : Treasury) (executor : Option ℕ)
      → treasury_row treasury w.treasuries ≡ some t
      → t.executor_signer_id ≡ executor
      → Commits-IsSingle (start_from fresh organization treasury to actor t executor w)
  start_from-IsSingle t none found executed = tt
  start_from-IsSingle t (some from) found executed =
      if-Commits (is_direct t.governance) _ _ (λ e. tt)
        (λ governed.
          if-Commits (from == to) _ _ (λ e. tt)
            (λ e. start_to-IsSingle t from _ found governed executed))

  start_at-IsSingle :
      (o : Option Treasury)
      → treasury_row treasury w.treasuries ≡ o
      → Commits-IsSingle
          (start_at fresh organization treasury to actor (in_organization organization o) w)
  start_at-IsSingle none found = tt
  start_at-IsSingle (some t) found = elim (Bool-cases (t.organization_id == organization)) [
    | inl own ↦ rw own (start_from-IsSingle t t.executor_signer_id found refl)
    | inr foreign ↦ rw foreign tt
  ]

  start-IsSingle : Commits-IsSingle (start fresh organization treasury to actor w)
  unfolding start
  start-IsSingle = start_at-IsSingle (treasury_row treasury w.treasuries) refl

-- What the API and the worker may do to the rotations.
pub data RotationEvents (w : Rows) : Rows → Type 0 where
  untouched : RotationEvents w w
  started :
      (fresh organization treasury to actor id : ℕ) (u v : Rows)
      → RotationEvents w u
      → start fresh organization treasury to actor u ≡ ok (id, v)
      → RotationEvents w v
  publication_stored :
      (id : ℕ) (publication : String) (u : Rows)
      → RotationEvents w u
      → RotationEvents w (record_publication id publication u)
  published_at :
      (id : ℕ) (external_ref : String) (u : Rows)
      → RotationEvents w u
      → RotationEvents w (published id external_ref u)
  observed_as :
      (id : ℕ) (outcome : Outcome) (u : Rows)
      → RotationEvents w u
      → RotationEvents w (observed id outcome u)
  completed_with :
      (id : ℕ) (configuration : String) (u : Rows)
      → RotationEvents w u
      → RotationEvents w (complete id configuration u)
  failed_with :
      (id : ℕ) (reason : String) (u : Rows)
      → RotationEvents w u
      → RotationEvents w (fail id reason u)

-- Whatever sequence of committed starts, publications, observations, completions and failures
-- leads on from rows with at most one open rotation per treasury, each starting from the executor
-- of a Squads treasury, leads to rows of which the same holds.
pub RotationEvents-IsSingle : (w v : Rows) → RotationEvents w v → IsSingle w → IsSingle v
RotationEvents-IsSingle w v untouched k = k
RotationEvents-IsSingle w v (started fresh organization treasury to actor id u _ before done) k =
    rw done at
      (start-IsSingle fresh organization treasury to actor u (RotationEvents-IsSingle w u before k))
RotationEvents-IsSingle w v (publication_stored id publication u before) k =
    record_publication-IsSingle id publication u (RotationEvents-IsSingle w u before k)
RotationEvents-IsSingle w v (published_at id external_ref u before) k =
    published-IsSingle id external_ref u (RotationEvents-IsSingle w u before k)
RotationEvents-IsSingle w v (observed_as id outcome u before) k =
    observed-IsSingle id outcome u (RotationEvents-IsSingle w u before k)
RotationEvents-IsSingle w v (completed_with id configuration u before) k =
    complete-IsSingle id configuration u (RotationEvents-IsSingle w u before k)
RotationEvents-IsSingle w v (failed_with id reason u before) k =
    fail-IsSingle id reason u (RotationEvents-IsSingle w u before k)
