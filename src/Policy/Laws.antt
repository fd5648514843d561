-- ===== src/Policy/Laws.antt =====
-- What `evaluatePaymentIntent` decides, against an independent statement of a permitted intent.
use ai_neobank.Prelude.{
  ◌+◌, ◌≤◌, ◌<◌, ◌≡◌, refl, ◌≢◌, ◌⊎◌, inl, inr, ◌↔◌, ap, ◌||◌, ltb, Bool, true, false, String, List,
  [], ◌∷◌, any, includes, is_empty, arith, Bool-cases,
}
use text.Mathlib.TextEquality.{eq_iff}
use ai_neobank.Prelude.Equality.{Eq, ◌==◌, string_eq}
use ai_neobank.Prelude.Text.{to_lower}
use ai_neobank.Domain.{PaymentIntent, SpendingPolicy, PolicyDecision, transfer, kind_eq}
use ai_neobank.Policy.{PolicyContext, destination_listed, pushed, checks, evaluate_payment_intent}

-- `x` satisfies `P` for some `x` of the list.
abbrev pub Some {ℓ} : {A : Type ℓ} → (A → Type 0) → List A → Type 0
Some P [] = ⊥
Some P (x ∷ xs) = P x ⊎ Some P xs

pub any-Some {ℓ} :
    {A : Type ℓ} (p : A → Bool) (P : A → Type 0) (xs : List A)
    → ((x : A) → (p x ≡ true) ↔ P x)
    → (any p xs ≡ true) ↔ Some P xs
any-Some p P [] h = (λ e. cc, λ s. absurd s)
any-Some p P (x ∷ xs) h = (
  λ e. ground (arith, (h x).0, (any-Some p P xs h).0),
  λ s. ground (arith, (h x).1, (any-Some p P xs h).1),
)

pub includes-Some :
    {A : Type 0} ⦃e : Eq A⦄ (xs : List A) (a : A) → (includes xs a ≡ true) ↔ Some (λ x. x ≡ a) xs
includes-Some ⦃e⦄ xs a = any-Some (λ x. x == a) (λ x. x ≡ a) xs (λ x. e.beq_iff x a)

-- Every condition under which the policy lets an intent through.
pub record IsPermitted (i : PaymentIntent) (p : SpendingPolicy) (c : PolicyContext) : Type 0 where
  pub not_frozen : p.frozen ≡ false
  pub in_time : c.now < i.expires_at
  pub kind_allowed : Some (λ k. k ≡ i.kind) p.allowed_kinds
  pub network_allowed : Some (λ n. n ≡ i.network) p.allowed_networks
  pub asset_allowed : Some (λ a. a ≡ i.asset_id) p.allowed_assets
  pub within_transaction_cap : i.amount_base_units ≤ p.max_per_transaction
  pub within_daily_cap : i.amount_base_units + c.spent_today ≤ p.max_daily
  pub destination_allowed :
      (p.allowed_destinations ≡ [])
      ⊎ Some (λ d. to_lower d ≡ to_lower i.destination) p.allowed_destinations
  pub beneficiary_approved :
      (p.require_beneficiary ≡ false)
      ⊎ (i.kind == transfer ≡ false)
      ⊎ (c.destination_is_beneficiary ≡ true)

-- No check is broken.
abbrev AllHold : List (Bool × String) → Type 0
AllHold [] = Unit
AllHold ((broken, _) ∷ cs) = (broken ≡ false) × AllHold cs

pushed-AllHold : (cs : List (Bool × String)) → (is_empty (pushed cs) ≡ true) ↔ AllHold cs
unfolding pushed
pushed-AllHold [] = (λ h. tt, λ h. refl)
pushed-AllHold ((true, r) ∷ cs) = (λ h. cc, λ h. cc)
pushed-AllHold ((false, r) ∷ cs) =
    (λ h. (refl, (pushed-AllHold cs).0 h), λ h. (pushed-AllHold cs).1 h.1)

destination_listed-Some :
    (p : SpendingPolicy) (i : PaymentIntent)
    → (destination_listed p i ≡ true)
      ↔ Some (λ d. to_lower d ≡ to_lower i.destination) p.allowed_destinations
destination_listed-Some p i =
    any-Some _ _ p.allowed_destinations (λ d. eq_iff (to_lower d) (to_lower i.destination))

checks-IsPermitted :
    (i : PaymentIntent) (p : SpendingPolicy) (c : PolicyContext)
    → AllHold (checks i p c)
    → IsPermitted i p c
checks-IsPermitted i p c h = record {
  not_frozen = ground arith;
  in_time = ground arith;
  kind_allowed = (includes-Some p.allowed_kinds i.kind).0 (ground arith);
  network_allowed = (includes-Some p.allowed_networks i.network).0 (ground arith);
  asset_allowed = (includes-Some p.allowed_assets i.asset_id).0 (ground arith);
  within_transaction_cap = ground arith;
  within_daily_cap = ground arith;
  destination_allowed = ground (arith, (destination_listed-Some p i).0);
  beneficiary_approved = ground arith;
}

IsPermitted-checks :
    (i : PaymentIntent) (p : SpendingPolicy) (c : PolicyContext)
    → IsPermitted i p c
    → AllHold (checks i p c)
IsPermitted-checks i p c h = ground (
  arith,
  (includes-Some p.allowed_kinds i.kind).1 h.kind_allowed,
  (includes-Some p.allowed_networks i.network).1 h.network_allowed,
  (includes-Some p.allowed_assets i.asset_id).1 h.asset_allowed,
  (destination_listed-Some p i).1,
)

-- What a decision promises about the intent that it was made on.
abbrev pub Justified : PaymentIntent → SpendingPolicy → PolicyContext → PolicyDecision → Type 0
Justified i p c (PolicyDecision.rejected found) = (¬ IsPermitted i p c) × (found ≢ [])
Justified i p c (PolicyDecision.approval_required _) =
    IsPermitted i p c
    × ((p.human_approval_required ≡ true) ⊎ (p.auto_approve_up_to < i.amount_base_units))
Justified i p c (PolicyDecision.auto_authorized _) =
    IsPermitted i p c
    × (p.human_approval_required ≡ false)
    × (i.amount_base_units ≤ p.auto_approve_up_to)

-- Every decision is justified: an intent is rejected exactly when some condition of the policy
-- fails (and then a reason is given), waits for a person exactly when all hold and the policy asks
-- for one or the amount passes the autonomous limit, and is authorised exactly otherwise.
pub evaluate_payment_intent-Justified :
    (i : PaymentIntent) (p : SpendingPolicy) (c : PolicyContext)
    → Justified i p c (evaluate_payment_intent i p c)
unfolding evaluate_payment_intent
evaluate_payment_intent-Justified i p c = elim (Bool-cases (is_empty (pushed (checks i p c)))) [
  | inl none_broken ↦
      let ok = checks-IsPermitted i p c ((pushed-AllHold (checks i p c)).0 none_broken) in
      rw none_broken
        (elim (Bool-cases
          (p.human_approval_required || ltb p.auto_approve_up_to i.amount_base_units)) [
            | inl asked ↦ rw asked (ok, ground arith)
            | inr free ↦ rw free (ok, ground arith, ground arith)
          ])
  | inr broken ↦ rw broken (
    λ ok. cc ((pushed-AllHold (checks i p c)).1 (IsPermitted-checks i p c ok)),
    λ e. cc (ap is_empty e),
  )
]
