-- ===== src/Tests/Gateways.antt =====
-- The requests of the gateway, at concrete bodies.
use capstone_home_care_be_mi.Common.{◌≡◌, ◌⊎◌, refl, String, none, some, [], ◌∷◌}
use capstone_home_care_be_mi.Data.{User, get}
use capstone_home_care_be_mi.Errors.{err, failure}
use capstone_home_care_be_mi.Errors.Contents.{held_exception, auth_exception}
use capstone_home_care_be_mi.World.{promise_all}
use capstone_home_care_be_mi.Services.{
  sign_access_token, sign_refresh_token, verify_refresh_token, verify_access_token, hash, compare,
}
use capstone_home_care_be_mi.Repos.{
  include_roles, include_all, find_user, insert_user, insert_profile, create_user, create_device,
  find_unique_verification_code, create_refresh_token, delete_verification_code,
  find_unique_refresh_token_include_user_role, find_unique_user_include_role, get_role,
  remembered_role, get_customer_role_id, find_unique_provider,
}
use capstone_home_care_be_mi.Auth.{
  Tokens, validate_verification_code, try_register, register, generate_tokens, second_factor, login,
  try_refresh_token, refresh_token,
}
use capstone_home_care_be_mi.Guards.{
  Request, second_word, handle_and_condition, authentication_guard, guard_of, access_token_guard,
  extract_access_token_from_header, extract_and_validate_token, validate_user_permission,
  roles_with_permissions, include_permissions,
}
use capstone_home_care_be_mi.Guards.Reading.{IsTicked, access_token_guard-IsTicked}
use capstone_home_care_be_mi.Managers.{update_provider_status, accept_provider}
use capstone_home_care_be_mi.Schemas.Zod.{text, number, Fields}
use capstone_home_care_be_mi.Gateway.Wire.{
  Framework, SoundFramework, with_response, internal_error, answer, failed, invalid_body,
  handle_zod_error, deliver, handle,
}
use capstone_home_care_be_mi.Gateway.Payloads.{
  Client, with_client, refresh_payload, read_register, read_login, read_refresh_token,
  read_update_status,
}
use capstone_home_care_be_mi.Gateway.Requests.{
  register_request, login_request, refresh_token_request, logout_request, change_status_request,
}
use capstone_home_care_be_mi.Gateway.Accounts.{IsRegisteredBy, register_request-IsRegisteredBy}
use capstone_home_care_be_mi.Gateway.Logins.{IsLoggedInBy, login_request-IsLoggedInBy}
use capstone_home_care_be_mi.Gateway.Sessions.{refresh_token_request-error, logout_request-fails}
use capstone_home_care_be_mi.Gateway.Verifying.{IsVerified, change_status_request-IsVerified}
use capstone_home_care_be_mi.Gateway.Refusals.{wrong_code, register_request-wrong}
use capstone_home_care_be_mi.Tests.Sample.{
  sample, sample-SoundTables, sample-LiveTables, sample-SoundReads, sample-SelectsRoles,
}
use capstone_home_care_be_mi.Tests.Cases.{before}
use capstone_home_care_be_mi.Tests.Forms.{reader, reader-SoundZod}

abbrev pub wire : Framework
wire = record {
  zod = reader;
  rejection = λ e. record { response = held_exception e; status_code = none };
  verify_undefined = err (failure "jwt must be provided");
  delete_undefined = λ w. (err (failure "Invalid invocation"), w);
}

pub wire-SoundFramework : SoundFramework wire
wire-SoundFramework = record {
  zod = reader-SoundZod;
  rejects = λ e. refl;
  verifies_no = ("jwt must be provided", refl);
}

abbrev pub account : Fields
account =
    ("email", text "bob@x")
    ∷ ("password", text "secret")
    ∷ ("name", text "Bob")
    ∷ ("phone", text "123456789")
    ∷ ("confirmPassword", text "secret")
    ∷ ("code", text "111111")
    ∷ []

abbrev bob : User
bob = record {
  id = 2;
  email = "bob@x";
  phone = "123456789";
  password = "secret";
  name = "Bob";
  avatar = none;
  status = capstone_home_care_be_mi.Data.inactive;
  totp_secret = none;
  role_ids = 1 ∷ [];
  deleted_at = none;
}

register_request-bob :
    register_request ⦃p = sample⦄ wire account before
    ≡ (answer bob, (register_request ⦃p = sample⦄ wire account before).1)
unfolding register_request handle deliver read_register register try_register
    validate_verification_code find_unique_verification_code hash get_customer_role_id get_role
    remembered_role promise_all create_user insert_user insert_profile delete_verification_code
register_request-bob = refl

register_request-IsRegisteredBy_example :
    IsRegisteredBy ⦃p = sample⦄ wire account before
      (register_request ⦃p = sample⦄ wire account before).1
      bob
register_request-IsRegisteredBy_example =
    register_request-IsRegisteredBy ⦃p = sample⦄ wire wire-SoundFramework sample-SoundTables
      sample-SelectsRoles before account bob register_request-bob

abbrev client : Client
client = record { ip = "1"; user_agent = some "new" }

abbrev credentials : Fields
credentials = ("email", text "ann@x") ∷ ("password", text "secret") ∷ []

abbrev issued : Tokens
issued = record { access_token = "*******"; refresh_token = "*********" }

login_request-ann :
    login_request ⦃p = sample⦄ wire client credentials before
    ≡ (answer issued, (login_request ⦃p = sample⦄ wire client credentials before).1)
unfolding login_request handle deliver read_login with_client login find_unique_user_include_role
    find_user include_all compare second_factor create_device generate_tokens promise_all
    sign_access_token sign_refresh_token verify_refresh_token create_refresh_token
login_request-ann = refl

login_request-IsLoggedInBy_example :
    IsLoggedInBy ⦃p = sample⦄ wire client credentials before
      (login_request ⦃p = sample⦄ wire client credentials before).1
      issued
login_request-IsLoggedInBy_example =
    login_request-IsLoggedInBy ⦃p = sample⦄ wire wire-SoundFramework sample-SoundTables before
      client credentials issued login_request-ann

-- A token that is stored no more.
abbrev pub gone : Fields
gone = ("refreshToken", text "gone") ∷ []

refresh_token_request-gone :
    refresh_token_request ⦃p = sample⦄ wire client gone before
    ≡ (failed internal_error, (refresh_token_request ⦃p = sample⦄ wire client gone before).1)
unfolding refresh_token_request handle deliver read_refresh_token refresh_payload with_client
    handle_zod_error held_exception auth_exception refresh_token try_refresh_token
    verify_refresh_token find_unique_refresh_token_include_user_role find_user include_roles
refresh_token_request-gone = refl

refresh_token_request-error_example : internal_error ≡ internal_error
refresh_token_request-error_example =
    refresh_token_request-error ⦃p = sample⦄ wire wire-SoundFramework before client gone
      internal_error refresh_token_request-gone

logout_request-fails_example :
    (logout_request ⦃p = sample⦄ wire gone before ≡ (invalid_body, before))
    ⊎ (logout_request ⦃p = sample⦄ wire gone before ≡ (failed internal_error, before))
logout_request-fails_example =
    logout_request-fails ⦃p = sample⦄ wire wire-SoundFramework before gone

-- A code that the table does not hold.
abbrev other_code : Fields
other_code = ("code", text "999999") ∷ account

register_request-wrong_example :
    register_request ⦃p = sample⦄ wire other_code before
    ≡ (failed (with_response wrong_code none), record before { tick = 1 })
register_request-wrong_example =
    register_request-wrong ⦃p = sample⦄ wire wire-SoundFramework sample-SoundTables
      sample-LiveTables before other_code other_code "bob@x" "999999" refl refl refl refl

abbrev request : Request
request = record {
  headers = ("authorization", "Bearer abc") ∷ [];
  path = "/managers";
  method = get;
  user = none;
}

abbrev verify_first : Fields
verify_first = ("id", number 1) ∷ ("verificationStatus", text "VERIFIED") ∷ []

change_status_request-first :
    change_status_request ⦃p = sample⦄ wire request verify_first before
    ≡ (answer tt, (change_status_request ⦃p = sample⦄ wire request verify_first before).1)
unfolding change_status_request handle deliver read_update_status authentication_guard guard_of
    handle_and_condition access_token_guard extract_and_validate_token
    extract_access_token_from_header second_word verify_access_token validate_user_permission
    roles_with_permissions include_permissions capstone_home_care_be_mi.Common.split
    update_provider_status find_unique_provider accept_provider
change_status_request-first = refl

change_status_request-IsVerified_example :
    IsVerified ⦃p = sample⦄ wire request verify_first before
      (change_status_request ⦃p = sample⦄ wire request verify_first before).1
change_status_request-IsVerified_example =
    change_status_request-IsVerified ⦃p = sample⦄ wire sample-SoundTables sample-LiveTables
      sample-SoundReads before request verify_first change_status_request-first

access_token_guard-IsTicked_example :
    IsTicked before
      (access_token_guard ⦃p = sample⦄ (record { request = request; world = before })).1.world
access_token_guard-IsTicked_example =
    access_token_guard-IsTicked ⦃p = sample⦄ (record { request = request; world = before })
