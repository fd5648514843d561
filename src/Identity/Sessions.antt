-- ===== src/Identity/Sessions.antt =====
-- packages/database/src/index.ts: whose sessions are answered.
use mathlib.Core.Option.{some-injective, none-ne-some}
use ai_neobank.Prelude.{
  ℕ, ◌≡◌, ◌≢◌, refl, inl, inr, Bool, true, false, String, Option, none, some, List, [], ◌∷◌, find,
  All, All-append_one, Bool-cases, arith,
}
use ai_neobank.Prelude.Equality.{◌==◌, nat_eq, string_eq, beq_refl}
use ai_neobank.Domain.{ChainFamily}
use ai_neobank.Identity.{
  PrincipalStatus, PrincipalRecord, MemberInput, SessionRow, Directory, is_active, is_live_of,
  is_member, revoke, update_where, set_principal_status, on_member, end_sessions, is_usable,
  get_session, revoke_session, create_session, add_member, consume_challenge, create_challenge,
  bootstrap_owner, ChallengeRecord,
}

-- Every session of the principal is revoked.
abbrev pub IsOut : ℕ → List SessionRow → Type 0
IsOut principal sessions = All (λ s. is_live_of principal s ≡ false) sessions

module _ (p : SessionRow → Bool) (f : SessionRow → SessionRow) (principal : ℕ) where
  IsOut-update_where :
      ((s : SessionRow) → is_live_of principal s ≡ false → is_live_of principal (f s) ≡ false)
      → (sessions : List SessionRow) → IsOut principal sessions
      → IsOut principal (update_where p f sessions)
  unfolding update_where
  IsOut-update_where keep [] h = tt
  IsOut-update_where keep (s ∷ sessions) h = elim (Bool-cases (p s)) [
    | inl met ↦ rw met (keep s h.0, IsOut-update_where keep sessions h.1)
    | inr unmet ↦ rw unmet (h.0, IsOut-update_where keep sessions h.1)
  ]

revoke-over : (now principal : ℕ) (s : SessionRow) → is_live_of principal (revoke now s) ≡ false
revoke-over now principal s = ground arith

IsOut-revoke :
    (now principal : ℕ) (sessions : List SessionRow)
    → IsOut principal (update_where (is_live_of principal) (revoke now) sessions)
unfolding update_where
IsOut-revoke now principal [] = tt
IsOut-revoke now principal (s ∷ sessions) = elim (Bool-cases (is_live_of principal s)) [
  | inl live ↦ rw live (revoke-over now principal s, IsOut-revoke now principal sessions)
  | inr over ↦ rw (over, over) (refl, IsOut-revoke now principal sessions)
]

end_sessions-IsOut :
    (now id principal : ℕ) (status : PrincipalStatus) (w : Directory)
    → IsOut principal w.sessions
    → IsOut principal (end_sessions now id status w).sessions
end_sessions-IsOut now id principal status w h = elim (Bool-cases (is_active status)) [
  | inl kept ↦ rw kept h
  | inr ended ↦ rw ended (
      IsOut-update_where (is_live_of id) (revoke now) principal
        (λ s out. revoke-over now principal s) w.sessions h)
]

on_member-IsOut :
    (now organization id actor principal : ℕ) (status : PrincipalStatus)
    (found : Option PrincipalRecord) (w : Directory)
    → IsOut principal w.sessions
    → IsOut principal (on_member now organization id actor status found w).1.sessions
on_member-IsOut now organization id actor principal status none w h = h
on_member-IsOut now organization id actor principal status (some p) w h =
    end_sessions-IsOut now id principal status _ h

-- What the API may do after a member stops being active, other than sign that member in again.
pub data Goes (principal : ℕ) (w : Directory) : Directory → Type 0 where
  stays : Goes principal w w
  answers :
      (now : ℕ) (token_hash : String) (u : Directory)
      → Goes principal w u
      → Goes principal w (get_session now token_hash u).1
  signs_out :
      (now : ℕ) (token_hash : String) (u : Directory)
      → Goes principal w u
      → Goes principal w (revoke_session now token_hash u)
  changes :
      (now organization id actor : ℕ) (status : PrincipalStatus) (u : Directory)
      → Goes principal w u
      → Goes principal w (set_principal_status now organization id actor status u).1
  adds :
      (id wallet organization actor : ℕ) (input : MemberInput) (u : Directory)
      → Goes principal w u
      → Goes principal w (add_member id wallet organization actor input u)
  consumes :
      (now : ℕ) (nonce : String) (u : Directory)
      → Goes principal w u
      → Goes principal w (consume_challenge now nonce u).1
  challenges :
      (c : ChallengeRecord) (u : Directory)
      → Goes principal w u
      → Goes principal w (create_challenge c u)
  founds :
      (now organization id wallet : ℕ) (display_name : String) (family : ChainFamily)
      (address : String) (u : Directory)
      → Goes principal w u
      → Goes principal w (bootstrap_owner now organization id wallet display_name family address u)
  signs_in :
      (now id organization other : ℕ) (wallet : Option ℕ) (token_hash : String) (expires_at : ℕ)
      (u : Directory)
      → (other == principal) ≡ false
      → Goes principal w u
      → Goes principal w (create_session now id organization other wallet token_hash expires_at u)

Goes-IsOut :
    (principal : ℕ) (w v : Directory)
    → Goes principal w v
    → IsOut principal w.sessions
    → IsOut principal v.sessions
unfolding get_session revoke_session set_principal_status add_member consume_challenge
    create_session bootstrap_owner
Goes-IsOut principal w _ stays h = h
Goes-IsOut principal w _ (answers now token_hash u before) h =
    IsOut-update_where (is_usable now token_hash) _ principal (λ s out. out) u.sessions
      (Goes-IsOut principal w u before h)
Goes-IsOut principal w _ (signs_out now token_hash u before) h =
    IsOut-update_where _ (revoke now) principal (λ s out. revoke-over now principal s) u.sessions
      (Goes-IsOut principal w u before h)
Goes-IsOut principal w _ (changes now organization id actor status u before) h =
    on_member-IsOut now organization id actor principal status
      (find (is_member organization id) u.principals) u (Goes-IsOut principal w u before h)
Goes-IsOut principal w _ (adds id wallet organization actor input u before) h =
    Goes-IsOut principal w u before h
Goes-IsOut principal w _ (consumes now nonce u before) h = Goes-IsOut principal w u before h
Goes-IsOut principal w _ (challenges c u before) h = Goes-IsOut principal w u before h
Goes-IsOut principal w _ (founds now organization id wallet display_name family address u before)
      h =
    Goes-IsOut principal w u before h
Goes-IsOut principal w _
      (signs_in now id organization other wallet token_hash expires_at u away before) h =
    All-append_one (λ s. is_live_of principal s ≡ false) u.sessions _
      (Goes-IsOut principal w u before h) (rw away refl)

usable-live :
    (now principal : ℕ) (token_hash : String) (s : SessionRow)
    → is_usable now token_hash s ≡ true
    → is_live_of principal s ≡ false
    → s.principal_id ≢ principal
usable-live now principal token_hash s usable over same =
    ground (arith, usable, over, beq_refl principal)

found-usable :
    (now principal : ℕ) (token_hash : String) (sessions : List SessionRow) (s : SessionRow)
    → find (is_usable now token_hash) sessions ≡ some s
    → IsOut principal sessions
    → s.principal_id ≢ principal
found-usable now principal token_hash [] s found h = absurd (none-ne-some s found)
found-usable now principal token_hash (r ∷ sessions) s found h =
    elim (Bool-cases (is_usable now token_hash r)) [
      | inl usable ↦
          rw (some-injective r s (rw usable at found)) at
            (usable-live now principal token_hash r usable h.0)
      | inr unusable ↦ found-usable now principal token_hash sessions s (rw unusable at found) h.1
    ]

on_member-ended :
    (now organization id actor : ℕ) (status : PrincipalStatus) (found : Option PrincipalRecord)
    (p : PrincipalRecord) (w : Directory)
    → is_active status ≡ false
    → (on_member now organization id actor status found w).0 ≡ some p
    → IsOut id (on_member now organization id actor status found w).1.sessions
on_member-ended now organization id actor status none p w inactive h = absurd (none-ne-some p h)
on_member-ended now organization id actor status (some q) p w inactive h =
    rw inactive (IsOut-revoke now id w.sessions)

-- Once setPrincipalStatus has made a member frozen or revoked, no session of that member is
-- answered at any later time, however many sessions are answered, revoked or created for others,
-- statuses changed, members added, owners bootstrapped, and challenges created or consumed in
-- between.
pub set_principal_status-signs_out :
    (now organization id actor later : ℕ) (status : PrincipalStatus) (p : PrincipalRecord)
    (w v : Directory) (token_hash : String) (s : SessionRow)
    → is_active status ≡ false
    → (set_principal_status now organization id actor status w).0 ≡ some p
    → Goes id (set_principal_status now organization id actor status w).1 v
    → (get_session later token_hash v).0 ≡ some s
    → s.principal_id ≢ id
unfolding set_principal_status get_session
set_principal_status-signs_out now organization id actor later status p w v token_hash s inactive
      changed between answered =
    found-usable later id token_hash v.sessions s answered (
      Goes-IsOut id _ v between (
        on_member-ended now organization id actor status
          (find (is_member organization id) w.principals) p w inactive changed))
