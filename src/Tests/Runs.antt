-- ===== src/Tests/Runs.antt =====
-- Runs of requests on the tables of the earlier cases.
use capstone_home_care_be_mi.Common.{ℕ, ◌≡◌, ◌≢◌, ◌≤◌, ◌+◌, refl, [], ◌∷◌, count, ◌===◌, arith}
use capstone_home_care_be_mi.Errors.{ok}
use capstone_home_care_be_mi.World.{World, promise_all, promise_all_three}
use capstone_home_care_be_mi.Services.{
  hash, verify_refresh_token, sign_access_token, sign_refresh_token,
}
use capstone_home_care_be_mi.Repos.{
  find_unique_refresh_token_include_user_role, find_user, include_roles, update_device,
  delete_refresh_token, create_refresh_token, insert_user, insert_profile, create_user,
  find_unique_verification_code, delete_verification_code, get_role, remembered_role,
  get_customer_role_id,
}
use capstone_home_care_be_mi.Auth.{
  try_refresh_token, generate_tokens, validate_verification_code, try_register, register,
  refresh_token, logout,
}
use capstone_home_care_be_mi.System.Consistent.{IsConsistent, HasRole}
use capstone_home_care_be_mi.Data.{customer}
use capstone_home_care_be_mi.System.Runs.{
  registers, refreshes, Reach, here, then, Reach-IsConsistent, logout-Reach, register-Reach,
}
use capstone_home_care_be_mi.System.Ledger.{Run, exchanged, held, issued, redeemed}
use capstone_home_care_be_mi.System.Refines.{
  ServedRun, none_yet, then_served, refreshed, ledger, ServedRun-Run, redeemed_once,
}
use capstone_home_care_be_mi.Tests.Sample.{
  sample, sample-SoundTables, sample-LiveTables, sample-SelectsRoles, payload,
}
use capstone_home_care_be_mi.Gateway.Requests.{register_request, logout_request}
use capstone_home_care_be_mi.System.Entries.{Entry, Visit, Visit-IsConsistent}
use capstone_home_care_be_mi.Tests.Gateways.{wire, wire-SoundFramework, account, gone}
use capstone_home_care_be_mi.Tests.Cases.{
  bob, before, bob_body, session_token, refresh_body, new_tokens, refresh_ann, other_token, says,
}

before-IsConsistent : IsConsistent before
before-IsConsistent = record {
  remembers = record {
    customer_role = λ id e. absurd (ground arith);
    service_provider_role = λ id e. absurd (ground arith);
    admin_role = λ id e. absurd (ground arith);
    staff_role = λ id e. absurd (ground arith);
  };
  at = record {
    emails = (refl, tt);
    user_ids = (refl, tt);
    profile_owners = tt;
    profile_users = tt;
    device_ids = (refl, tt);
    token_texts = (refl, tt);
    token_devices = (λ e. ground arith, tt);
    purposes = (refl, (refl, tt));
    provider_owners = (refl, tt);
    provider_users = (λ e. ground arith, tt);
  };
}

abbrev registered : World
registered = (register ⦃p = sample⦄ bob_body before).1

abbrev exchanged_too : World
exchanged_too = (refresh_token ⦃p = sample⦄ refresh_body registered).1

one_request : Reach ⦃p = sample⦄ before registered
one_request = then here (registers bob_body)

two_requests : Reach ⦃p = sample⦄ before exchanged_too
two_requests = then one_request (refreshes refresh_body)

Reach-IsConsistent_example : IsConsistent exchanged_too
Reach-IsConsistent_example =
    Reach-IsConsistent ⦃p = sample⦄ sample-SoundTables sample-SelectsRoles two_requests
      before-IsConsistent

still_there : count (λ r. r.token === session_token) registered.tokens ≢ 0
unfolding register try_register validate_verification_code find_unique_verification_code hash
    get_customer_role_id get_role remembered_role promise_all promise_all_three create_user
    insert_user insert_profile delete_verification_code
still_there e = ground arith

logout-Reach_example : (logout ⦃p = sample⦄ session_token registered).0 ≡ ok tt
logout-Reach_example =
    logout-Reach ⦃p = sample⦄ sample-SoundTables sample-SelectsRoles sample-LiveTables session_token
      payload before-IsConsistent one_request (says registered) still_there

abbrev after : World
after = (refresh_token ⦃p = sample⦄ refresh_body before).1

one_exchange :
    ServedRun ⦃p = sample⦄ before (exchanged session_token new_tokens.refresh_token ∷ []) after
one_exchange = then_served none_yet (refreshed refresh_body new_tokens refresh_ann other_token)

ServedRun-Run_example :
    Run (ledger before) (exchanged session_token new_tokens.refresh_token ∷ []) (ledger after)
ServedRun-Run_example =
    ServedRun-Run ⦃p = sample⦄ sample-SoundTables sample-SelectsRoles one_exchange
      before-IsConsistent

redeemed_once_example :
    redeemed session_token (exchanged session_token new_tokens.refresh_token ∷ [])
    ≤ held session_token (ledger before)
      + issued session_token (exchanged session_token new_tokens.refresh_token ∷ [])
redeemed_once_example =
    redeemed_once ⦃p = sample⦄ sample-SoundTables sample-SelectsRoles session_token
      before-IsConsistent one_exchange

exchanged_first : Reach ⦃p = sample⦄ before after
exchanged_first = then here (refreshes refresh_body)

register_later :
    register ⦃p = sample⦄ bob_body after ≡ (ok bob, (register ⦃p = sample⦄ bob_body after).1)
unfolding register try_register validate_verification_code find_unique_verification_code hash
    get_customer_role_id get_role remembered_role promise_all promise_all_three create_user
    insert_user insert_profile delete_verification_code refresh_token try_refresh_token
    verify_refresh_token find_unique_refresh_token_include_user_role find_user include_roles
    update_device delete_refresh_token generate_tokens sign_access_token sign_refresh_token
    create_refresh_token
register_later = refl

register-Reach_example :
    (role : ℕ) × (bob.role_ids ≡ role ∷ [])
    × HasRole after.roles customer role
    × (count (λ x. x.email === bob.email) (register ⦃p = sample⦄ bob_body after).1.users ≡ 1)
register-Reach_example =
    register-Reach ⦃p = sample⦄ sample-SoundTables sample-SelectsRoles bob_body bob
      before-IsConsistent exchanged_first register_later

-- A registration and a logout at the gateway.
abbrev visited : World
visited =
    (logout_request ⦃p = sample⦄ wire gone (register_request ⦃p = sample⦄ wire account before).1).1

two_entries : Visit ⦃p = sample⦄ wire before visited
two_entries = Visit.then (Visit.then Visit.here (Entry.registers account)) (Entry.logs_out gone)

Visit-IsConsistent_example : IsConsistent visited
Visit-IsConsistent_example =
    Visit-IsConsistent ⦃p = sample⦄ wire wire-SoundFramework sample-SoundTables sample-SelectsRoles
      two_entries before-IsConsistent
