-- ===== src/Identity.antt =====
-- packages/database/src/index.ts: members, wallets, challenges and sessions of
-- `PostgresControlPlaneStore`. Rows stand in the order of their creation; the ids that an insert
-- generates are arguments.
pub mod Sessions
mod Tests
use ai_neobank.Prelude.{
  ℕ, Bool, true, false, not, ◌&&◌, String, Option, none, some, List, [], ◌∷◌, ◌++◌, if◌then◌else◌,
  ltb, find, filter,
}
use ai_neobank.Prelude.Equality.{◌==◌, nat_eq, string_eq}
use ai_neobank.Domain.{ChainFamily, evm, svm}
use ai_neobank.Domain.Status.{PrincipalRole, owner}

pub data PrincipalStatus : Type 0 where
  active frozen revoked : PrincipalStatus

pub record PrincipalRecord : Type 0 where
  pub id : ℕ
  pub organization_id : ℕ
  pub is_human : Bool
  pub display_name : String
  pub role : PrincipalRole
  pub status : PrincipalStatus

pub record WalletRecord : Type 0 where
  pub id : ℕ
  pub organization_id : ℕ
  pub principal_id : ℕ
  pub chain_family : ChainFamily
  pub address : String
  pub verified_at : Option ℕ

pub record ChallengeRecord : Type 0 where
  pub nonce : String
  pub chain_family : ChainFamily
  pub address : String
  pub domain : String
  pub message : String
  pub expires_at : ℕ
  pub consumed_at : Option ℕ

pub record SessionRow : Type 0 where
  pub id : ℕ
  pub token_hash : String
  pub organization_id : ℕ
  pub principal_id : ℕ
  pub wallet_id : Option ℕ
  pub expires_at : ℕ
  pub revoked_at : Option ℕ
  pub last_seen_at : Option ℕ

pub record IdentityAudit : Type 0 where
  pub organization_id : ℕ
  pub actor_principal_id : ℕ
  pub action : String
  pub resource_id : ℕ

pub record Directory : Type 0 where
  pub principals : List PrincipalRecord
  pub wallets : List WalletRecord
  pub challenges : List ChallengeRecord
  pub sessions : List SessionRow
  pub audit : List IdentityAudit

abbrev pub is_unset : Option ℕ → Bool
is_unset none = true
is_unset (some at) = false

abbrev pub is_active : PrincipalStatus → Bool
is_active active = true
is_active _ = false

abbrev add_audit : ℕ → ℕ → String → ℕ → Directory → Directory
add_audit organization actor action resource w = record w {
  audit =
      w.audit
      ++ record {
        organization_id = organization;
        actor_principal_id = actor;
        action = action;
        resource_id = resource;
      }
        ∷ [];
}

-- `update … set … where …`
module _ {A : Type 0} (p : A → Bool) (f : A → A) where
  unfoldable pub update_where : List A → List A
  update_where [] = []
  update_where (a ∷ rows) = (if p a then f a else a) ∷ update_where rows

pub record MemberInput : Type 0 where
  pub display_name : String
  pub role : PrincipalRole
  pub chain_family : ChainFamily
  pub address : String

-- The rows of a person with a wallet.
abbrev pub insert_person : ℕ → ℕ → ℕ → MemberInput → Option ℕ → Directory → Directory
insert_person principal wallet organization input verified_at w = record w {
  principals =
      w.principals
      ++ record {
        id = principal;
        organization_id = organization;
        is_human = true;
        display_name = input.display_name;
        role = input.role;
        status = active;
      }
        ∷ [];
  wallets =
      w.wallets
      ++ record {
        id = wallet;
        organization_id = organization;
        principal_id = principal;
        chain_family = input.chain_family;
        address = input.address;
        verified_at = verified_at;
      }
        ∷ [];
}

-- `bootstrapOwner`, in the organisation that it inserts.
unfoldable pub bootstrap_owner :
    (now organization principal wallet : ℕ) → String → ChainFamily → String → Directory → Directory
bootstrap_owner now organization principal wallet display_name family address w =
    add_audit organization principal "organization.bootstrapped" organization (
      insert_person principal wallet organization
        (record {
          display_name = display_name;
          role = owner;
          chain_family = family;
          address = address;
        })
        (some now) w)

-- `addMember`
unfoldable pub add_member :
    (principal wallet organization actor : ℕ) → MemberInput → Directory → Directory
add_member principal wallet organization actor input w =
    add_audit organization actor "member.added" principal
      (insert_person principal wallet organization input none w)

abbrev pub is_member : ℕ → ℕ → PrincipalRecord → Bool
is_member organization id p = p.id == id && p.organization_id == organization && p.is_human

abbrev pub is_live_of : ℕ → SessionRow → Bool
is_live_of principal s = s.principal_id == principal && is_unset s.revoked_at

abbrev pub revoke : ℕ → SessionRow → SessionRow
revoke now s = record s { revoked_at = some now }

abbrev pub set_member_status : ℕ → ℕ → PrincipalStatus → Directory → Directory
set_member_status organization id status w = record w {
  principals =
      update_where (is_member organization id) (λ p. record p { status = status }) w.principals;
}

abbrev pub end_sessions : ℕ → ℕ → PrincipalStatus → Directory → Directory
end_sessions now id status w =
    if is_active status
    then w
    else record w { sessions = update_where (is_live_of id) (revoke now) w.sessions }

abbrev pub on_member :
    (now organization id actor : ℕ)
    → PrincipalStatus
    → Option PrincipalRecord
    → Directory
    → Option PrincipalRecord × Directory
on_member now organization id actor status none w = (none, w)
on_member now organization id actor status (some p) w = (
  some (record p { status = status }),
  add_audit organization actor "member.status" id
      (end_sessions now id status (set_member_status organization id status w)),
)

-- `setPrincipalStatus`: the sessions of a member who is no longer active end.
unfoldable pub set_principal_status :
    (now organization id actor : ℕ)
    → PrincipalStatus
    → Directory
    → Option PrincipalRecord × Directory
unfolding update_where
set_principal_status now organization id actor status w =
    on_member now organization id actor status (find (is_member organization id) w.principals) w

-- `createChallenge`
abbrev pub create_challenge : ChallengeRecord → Directory → Directory
create_challenge c w = record w {
  challenges = w.challenges ++ record c { consumed_at = none } ∷ [];
}

abbrev pub is_open_challenge : ℕ → String → ChallengeRecord → Bool
is_open_challenge now nonce c = c.nonce == nonce && is_unset c.consumed_at && ltb now c.expires_at

-- `consumeChallenge`
unfoldable pub consume_challenge : ℕ → String → Directory → Option ChallengeRecord × Directory
unfolding update_where
consume_challenge now nonce w = (
  find (is_open_challenge now nonce) w.challenges,
  record w {
    challenges =
        update_where (is_open_challenge now nonce) (λ c. record c { consumed_at = some now })
          w.challenges;
  },
)

abbrev pub has_wallet : Option ℕ → WalletRecord → Bool
has_wallet none v = false
has_wallet (some id) v = v.id == id

abbrev pub verified : ℕ → WalletRecord → WalletRecord
verified now v = record v {
  verified_at = if is_unset v.verified_at then some now else v.verified_at;
}

-- `createSession`
unfoldable pub create_session :
    (now id organization principal : ℕ) → Option ℕ → String → ℕ → Directory → Directory
unfolding update_where
create_session now id organization principal wallet token_hash expires_at w =
    add_audit organization principal "session.created" id (record w {
      wallets = update_where (has_wallet wallet) (verified now) w.wallets;
      sessions =
          w.sessions
          ++ record {
            id = id;
            token_hash = token_hash;
            organization_id = organization;
            principal_id = principal;
            wallet_id = wallet;
            expires_at = expires_at;
            revoked_at = none;
            last_seen_at = none;
          }
            ∷ [];
    })

abbrev pub is_usable : ℕ → String → SessionRow → Bool
is_usable now token_hash s =
    s.token_hash == token_hash && is_unset s.revoked_at && ltb now s.expires_at

-- `getSession`; the principal and the organisation of a session exist.
unfoldable pub get_session : ℕ → String → Directory → Option SessionRow × Directory
unfolding update_where
get_session now token_hash w = (
  find (is_usable now token_hash) w.sessions,
  record w {
    sessions =
        update_where (is_usable now token_hash) (λ s. record s { last_seen_at = some now })
          w.sessions;
  },
)

-- `revokeSession`
unfoldable pub revoke_session : ℕ → String → Directory → Directory
unfolding update_where
revoke_session now token_hash w = record w {
  sessions =
      update_where (λ s. s.token_hash == token_hash && is_unset s.revoked_at) (revoke now)
        w.sessions;
}
