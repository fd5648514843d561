-- ===== src/Identity/Tests.antt =====
-- Two members with a session each, of whom one is frozen, and the witness.
use ai_neobank.Prelude.{◌≡◌, ◌≢◌, refl, none, some, [], true}
use ai_neobank.Domain.{evm}
use ai_neobank.Domain.Status.{operator}
use ai_neobank.Identity.{
  PrincipalStatus, PrincipalRecord, SessionRow, Directory, bootstrap_owner, add_member,
  create_session, set_principal_status, get_session,
}
use ai_neobank.Identity.Sessions.{stays, signs_in, set_principal_status-signs_out}

abbrev nobody : Directory
nobody = record { principals = []; wallets = []; challenges = []; sessions = []; audit = [] }

abbrev founded : Directory
founded = bootstrap_owner 100 1 2 3 "Ada" evm "0xada" nobody

abbrev staffed : Directory
staffed =
    add_member 4 5 1 2
      (record { display_name = "Ben"; role = operator; chain_family = evm; address = "0xben" })
      founded

abbrev signed_in : Directory
signed_in = create_session 200 7 1 4 (some 5) "ben" 9000 staffed

abbrev ben : PrincipalRecord
ben = record {
  id = 4;
  organization_id = 1;
  is_human = true;
  display_name = "Ben";
  role = operator;
  status = PrincipalStatus.frozen;
}

freezes : (set_principal_status 300 1 4 2 PrincipalStatus.frozen signed_in).0 ≡ some ben
unfolding set_principal_status create_session add_member bootstrap_owner
freezes = refl

abbrev frozen_ben : Directory
frozen_ben = (set_principal_status 300 1 4 2 PrincipalStatus.frozen signed_in).1

ben_is_out : (get_session 400 "ben" frozen_ben).0 ≡ none
unfolding get_session set_principal_status create_session add_member bootstrap_owner
ben_is_out = refl

abbrev ada_signed_in : Directory
ada_signed_in = create_session 350 8 1 2 (some 3) "ada" 9000 frozen_ben

abbrev ada_session : SessionRow
ada_session = record {
  id = 8;
  token_hash = "ada";
  organization_id = 1;
  principal_id = 2;
  wallet_id = some 3;
  expires_at = 9000;
  revoked_at = none;
  last_seen_at = none;
}

ada_is_answered : (get_session 400 "ada" ada_signed_in).0 ≡ some ada_session
unfolding get_session set_principal_status create_session add_member bootstrap_owner
ada_is_answered = refl

set_principal_status-signs_out_example : ada_session.principal_id ≢ 4
set_principal_status-signs_out_example =
    set_principal_status-signs_out 300 1 4 2 400 PrincipalStatus.frozen ben signed_in ada_signed_in
      "ada" ada_session refl freezes (signs_in 350 8 1 2 (some 3) "ada" 9000 frozen_ben refl stays)
      ada_is_answered
