-- ===== src/Tests/Cases.antt =====
-- Each theorem at a concrete state of the tables.
use capstone_home_care_be_mi.Common.{
  Memᴰ, count, ◌==◌, ◌≡◌, ◌≢◌, refl, String, true, none, some, [], ◌∷◌, arith, eq_iff,
}
use mathlib.Core.List.Memᴰ.{not-nil}
use capstone_home_care_be_mi.Data.{
  User, active, inactive, RefreshToken, VerificationCode, CodeType, get, other, pending,
}
use capstone_home_care_be_mi.Errors.{ok, err, plain_unauthorized}
use capstone_home_care_be_mi.World.{World, promise_all, promise_all_three}
use capstone_home_care_be_mi.Services.{
  sign_access_token, sign_refresh_token, verify_refresh_token, hash,
}
use capstone_home_care_be_mi.Repos.{
  include_roles, find_user, insert_user, insert_profile, create_user, find_unique_verification_code,
  create_refresh_token, update_device, delete_refresh_token, delete_verification_code,
  find_unique_refresh_token_include_user_role, get_role, remembered_role, get_customer_role_id,
}
use capstone_home_care_be_mi.Auth.{
  RegisterBody, RefreshTokenBody, Tokens, validate_verification_code, try_register, register,
  generate_tokens, try_refresh_token, refresh_token, try_logout, logout,
}
use capstone_home_care_be_mi.Auth.Register.{IsRegistered, register-IsRegistered}
use capstone_home_care_be_mi.Auth.Revocation.{
  refresh_token-logout, refresh_token-once, logout-IsLoggedOut, IsLoggedOut,
}
use capstone_home_care_be_mi.Tests.Sample.{
  sample, sample-SoundTables, sample-LiveTables, sample-SelectsRoles, payload,
}

-- A customer with one session and two codes, one of which has run out; the service has made no
-- call yet.
abbrev pub session_token : String
session_token = "held"

abbrev ann : User
ann = record {
  id = 1;
  email = "ann@x";
  phone = "";
  password = "secret";
  name = "Ann";
  avatar = none;
  status = active;
  totp_secret = none;
  role_ids = 1 ∷ [];
  deleted_at = none;
}

abbrev held_row : RefreshToken
held_row = record { id = 1; token = session_token; user_id = 1; device_id = 1; expires_at = 9000 }

abbrev pub fresh_code : VerificationCode
fresh_code = record {
  id = 1;
  email = "bob@x";
  code = "111111";
  type = CodeType.register;
  expires_at = 200;
}

abbrev pub old_code : VerificationCode
old_code = record {
  id = 2;
  email = "eve@x";
  code = "222222";
  type = CodeType.register;
  expires_at = 50;
}

abbrev pub before : World
before = record {
  users = ann ∷ [];
  profiles = [];
  devices =
      record {
        id = 1;
        user_id = 1;
        user_agent = "old";
        ip = "0";
        last_active = 0;
        is_active = true;
      }
      ∷ [];
  tokens = held_row ∷ [];
  codes = fresh_code ∷ old_code ∷ [];
  roles = record { id = 1; name = "CUSTOMER"; deleted_at = none; permission_ids = 1 ∷ [] } ∷ [];
  permissions = record { id = 1; path = "/managers"; method = get; deleted_at = none } ∷ [];
  providers =
      record {
        id = 1;
        user_id = 1;
        tax_id = "7";
        company_type = other;
        industry = none;
        description = none;
        address = "";
        verification_status = pending;
        verified_at = none;
        verified_by_id = none;
      }
      ∷ [];
  staff = [];
  categories = [];
  mails = [];
  customer_role_id = none;
  service_provider_role_id = none;
  admin_role_id = none;
  staff_role_id = none;
  tick = 0;
}

abbrev pub bob_body : RegisterBody
bob_body = record {
  email = "bob@x";
  password = "pw";
  name = "Bob";
  phone = "1";
  confirm_password = "pw";
  code = "111111";
}

abbrev pub bob : User
bob = record {
  id = 2;
  email = "bob@x";
  phone = "1";
  password = "pw";
  name = "Bob";
  avatar = none;
  status = inactive;
  totp_secret = none;
  role_ids = 1 ∷ [];
  deleted_at = none;
}

register-bob :
    register ⦃p = sample⦄ bob_body before ≡ (ok bob, (register ⦃p = sample⦄ bob_body before).1)
unfolding register try_register validate_verification_code find_unique_verification_code hash
    get_customer_role_id get_role remembered_role promise_all create_user insert_user insert_profile
    delete_verification_code
register-bob = refl

register-IsRegistered_example :
    IsRegistered ⦃p = sample⦄ bob_body before (register ⦃p = sample⦄ bob_body before).1 bob
register-IsRegistered_example =
    register-IsRegistered ⦃p = sample⦄ sample-SoundTables sample-SelectsRoles before bob_body bob
      register-bob

-- The session of `ann` is exchanged, and then ended.
abbrev pub refresh_body : RefreshTokenBody
refresh_body = record { refresh_token = session_token; user_agent = some "new"; ip = "1" }

abbrev pub new_tokens : Tokens
new_tokens = record { access_token = "******"; refresh_token = "********" }

pub refresh_ann :
    refresh_token ⦃p = sample⦄ refresh_body before
    ≡ (ok new_tokens, (refresh_token ⦃p = sample⦄ refresh_body before).1)
unfolding refresh_token try_refresh_token verify_refresh_token
    find_unique_refresh_token_include_user_role find_user include_roles promise_all
    promise_all_three update_device delete_refresh_token generate_tokens sign_access_token
    sign_refresh_token create_refresh_token
refresh_ann = refl

pub other_token : new_tokens.refresh_token ≢ session_token
other_token e = ground (arith, eq_iff new_tokens.refresh_token session_token)

logout_ann :
    logout ⦃p = sample⦄ session_token before ≡ (ok tt, (logout ⦃p = sample⦄ session_token before).1)
unfolding logout try_logout verify_refresh_token delete_refresh_token update_device
logout_ann = refl

logout-IsLoggedOut_example :
    IsLoggedOut session_token before (logout ⦃p = sample⦄ session_token before).1
logout-IsLoggedOut_example =
    logout-IsLoggedOut ⦃p = sample⦄ sample-SoundTables before session_token logout_ann

pub says : (w : World) → (verify_refresh_token ⦃p = sample⦄ session_token w).0 ≡ ok payload
unfolding verify_refresh_token
says w = refl

refresh_token-logout_example :
    (refresh_token ⦃p = sample⦄ refresh_body (logout ⦃p = sample⦄ session_token before).1).0
    ≡ err plain_unauthorized
refresh_token-logout_example =
    refresh_token-logout ⦃p = sample⦄ sample-SoundTables sample-LiveTables before refresh_body
      payload logout_ann (says (logout ⦃p = sample⦄ session_token before).1)

refresh_token-once_example :
    (refresh_token ⦃p = sample⦄ refresh_body (refresh_token ⦃p = sample⦄ refresh_body before).1).0
    ≡ err plain_unauthorized
refresh_token-once_example =
    refresh_token-once ⦃p = sample⦄ sample-SoundTables sample-LiveTables before refresh_body
      new_tokens payload refresh_ann other_token
      (says (refresh_token ⦃p = sample⦄ refresh_body before).1)

abbrev no_tokens : World
no_tokens = record before { tokens = [] }

owned :
    (r : RefreshToken)
    → Memᴰ r before.tokens
    → r.token ≡ session_token
    → count (λ d. d.id == r.device_id) before.devices ≢ 0
owned r (Memᴰ.head e) same = rw e (λ q. ground arith)
owned r (Memᴰ.tail m) same = absurd (not-nil m)
