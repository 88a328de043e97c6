-- ===== src/Auth/Service.antt =====
-- The methods of `AuthService` in apps/auth/src/auth.service.ts.
use capstone_home_care_be_mi.Common.{
  ◌+◌, ◌*◌, String, true, not, ◌&&◌, some, none, [], ◌∷◌, ltb, ◌===◌, is_some, non_empty, non_zero,
  if◌then◌else◌,
}
use capstone_home_care_be_mi.Data.{User, VerificationCode, CodeType, pending, same_type}
use capstone_home_care_be_mi.Errors.{
  Error, rpc, invalid_otp, otp_expired, email_already_exists, email_not_found, failed_to_send_otp,
  invalid_password, invalid_totp_and_code, refresh_token_revoked, AuthError, unauthorized,
  plain_unauthorized, is_http_exception, is_unique_constraint_prisma_error,
  is_not_found_prisma_error,
}
use capstone_home_care_be_mi.Platform.{Platform, AccessTokenPayloadCreate}
use capstone_home_care_be_mi.World.{
  Action, pure, throw, throw_if, catch, promise_all, promise_all_three, ◌>>=◌, ◌>>◌,
}
use capstone_home_care_be_mi.Services.{
  new_date, sign_access_token, sign_refresh_token, verify_refresh_token, hash, compare, verify_totp,
  send_otp_email,
}
use capstone_home_care_be_mi.Helpers.{generate_otp}
use capstone_home_care_be_mi.Repos.{
  UserIncludeRole, from_client, deactivate, create_user, create_verification_code,
  find_unique_verification_code, create_refresh_token, create_device, update_device,
  delete_refresh_token, delete_verification_code, find_unique_user_include_role,
  find_unique_refresh_token_include_user_role, find_unique_provider_include_name_and_tax_id,
  create_service_provider, find_unique_user, update_password, get_customer_role_id,
  get_service_provider_role_id,
}
use capstone_home_care_be_mi.Auth.Bodies.{
  RegisterBody, SendOtpBody, LoginBody, RefreshTokenBody, ForgotPasswordBody, RegisterProviderBody,
  Tokens,
}

-- The `catch` of `refreshToken`.
abbrev pub refresh_error : {A : Type 0} → Error → Action A
refresh_error e = if is_http_exception e then throw e else throw plain_unauthorized

-- The `catch` of `logout`.
abbrev pub logout_error : {A : Type 0} → Error → Action A
logout_error e =
    if is_not_found_prisma_error e
    then throw (unauthorized "Refresh token has been revoked")
    else throw plain_unauthorized

-- The `catch` of `register` and `registerProvider`.
abbrev pub unique_as_email : {A : Type 0} → Error → Action A
unique_as_email e =
    if is_unique_constraint_prisma_error e then throw (rpc email_already_exists) else throw e

module _ ⦃p : Platform⦄ where
  unfoldable pub validate_verification_code : String → String → CodeType → Action VerificationCode
  validate_verification_code email code type = do
    verification_code ← find_unique_verification_code email type code
    elim verification_code [
      | none ↦ throw (rpc invalid_otp)
      | some c ↦ do
        throw_if (not (c.code === code)) (rpc invalid_otp)
        now ← new_date
        throw_if (ltb c.expires_at now) (rpc otp_expired)
        pure c
    ]

  -- The `try` block of `register`.
  unfoldable pub try_register : RegisterBody → Action User
  try_register body = do
    verification_code ← validate_verification_code body.email body.code CodeType.register
    now ← new_date
    throw_if (ltb verification_code.expires_at now) (rpc invalid_otp)
    hashed_password ← hash body.password
    client_role ← get_customer_role_id
    pair ←
        promise_all p
          (create_user (record {
            email = body.email;
            name = body.name;
            password = hashed_password;
            phone = body.phone;
            avatar = none;
            role_ids = client_role.id ∷ [];
          }))
          (delete_verification_code body.email CodeType.register body.code)
    pure pair.0

  unfoldable pub register : RegisterBody → Action User
  register body = catch (try_register body) unique_as_email

  unfoldable pub send_otp : SendOtpBody → Action (Unit {0})
  send_otp body = do
    user ← find_unique_user body.email
    throw_if (is_some user && same_type body.type CodeType.register) (rpc email_already_exists)
    throw_if (not (is_some user) && same_type body.type CodeType.forgot_password)
        (rpc email_not_found)
    code ← generate_otp
    now ← new_date
    create_verification_code (record {
      email = body.email;
      type = body.type;
      code = code;
      expires_at = now + p.ms (p.config "OTP_EXPIRES_IN");
    })
    error ← send_otp_email body.email code
    throw_if (is_some error) (rpc failed_to_send_otp)

  unfoldable pub generate_tokens : AccessTokenPayloadCreate → Action Tokens
  generate_tokens payload = do
    pair ←
        promise_all p (sign_access_token (record payload { staff_provider_id = none }))
          (sign_refresh_token payload)
    decoded ← verify_refresh_token pair.1
    create_refresh_token (record {
      token = pair.1;
      user_id = payload.user_id;
      device_id = payload.device_id;
      expires_at = decoded.exp * 1000;
    })
    pure (record { access_token = pair.0; refresh_token = pair.1 })

  -- The part of `login` under `if (user.totpSecret)`.
  unfoldable pub second_factor : UserIncludeRole → LoginBody → Action (Unit {0})
  second_factor user body = elim (non_empty user.totp_secret) [
    | none ↦ pure tt
    | some secret ↦ elim (non_empty body.totp_code) [
      | some token ↦ do
        is_valid ← verify_totp user.email secret token
        throw_if (not is_valid) (rpc invalid_otp)
      | none ↦ elim (non_empty body.code) [
        | none ↦ throw (rpc invalid_totp_and_code)
        | some code ↦ do validate_verification_code user.email code CodeType.login; pure tt
      ]
    ]
  ]

  unfoldable pub login : LoginBody → Action Tokens
  login body = do
    found ← find_unique_user_include_role body.email
    elim found [
      | none ↦ throw (rpc email_not_found)
      | some user ↦ do
        is_password_match ← compare body.password user.password
        throw_if (not is_password_match) (rpc invalid_password)
        second_factor user body
        now ← new_date
        device ← create_device (record {
          user_id = user.id;
          user_agent = body.user_agent;
          ip = body.ip;
          is_active = some true;
          last_active = some now;
        })
        generate_tokens (record {
          user_id = user.id;
          device_id = device.id;
          roles = user.roles;
          provider_id = non_zero user.service_provider;
          staff_provider_id = non_zero user.staff;
        })
    ]

  -- The `try` block of `refresh_token`.
  unfoldable pub try_refresh_token : RefreshTokenBody → Action Tokens
  try_refresh_token body = do
    payload ← verify_refresh_token body.refresh_token
    stored ← find_unique_refresh_token_include_user_role body.refresh_token
    elim stored [
      | none ↦ throw (rpc refresh_token_revoked)
      | some row ↦ do
        triple ←
            promise_all_three p (update_device row.device_id (from_client body.ip body.user_agent))
              (delete_refresh_token body.refresh_token)
              (generate_tokens (record {
                user_id = payload.user_id;
                device_id = row.device_id;
                roles = row.roles;
                provider_id = none;
                staff_provider_id = none;
              }))
        pure triple.1.1
    ]

  unfoldable pub refresh_token : RefreshTokenBody → Action Tokens
  refresh_token body = catch (try_refresh_token body) refresh_error

  -- The `try` block of `logout`.
  unfoldable pub try_logout : String → Action (Unit {0})
  try_logout token = do
    verify_refresh_token token
    deleted ← delete_refresh_token token
    update_device deleted.device_id deactivate
    pure tt

  unfoldable pub logout : String → Action (Unit {0})
  logout token = catch (try_logout token) logout_error

  unfoldable pub forgot_password : ForgotPasswordBody → Action (Unit {0})
  forgot_password body = do
    found ← find_unique_user body.email
    elim found [
      | none ↦ throw (rpc email_not_found)
      | some user ↦ do
        verification_code ← validate_verification_code body.email body.code CodeType.forgot_password
        now ← new_date
        throw_if (ltb verification_code.expires_at now) (rpc invalid_otp)
        hashed_password ← hash body.new_password
        promise_all p (delete_verification_code body.email CodeType.forgot_password body.code)
            (update_password user.id hashed_password)
        pure tt
    ]

  -- The `try` block of `register_provider`.
  unfoldable pub try_register_provider : RegisterProviderBody → Action (Unit {0})
  try_register_provider body = do
    verification_code ← validate_verification_code body.email body.code CodeType.register
    now ← new_date
    throw_if (ltb verification_code.expires_at now) (rpc invalid_otp)
    taken ← find_unique_provider_include_name_and_tax_id body.name body.tax_id
    throw_if taken (rpc AuthError.service_provider_already_exists)
    hashed_password ← hash body.password
    service_provider_role ← get_service_provider_role_id
    pair ←
        promise_all p
          (create_user (record {
            email = body.email;
            name = body.name;
            password = hashed_password;
            phone = body.phone;
            avatar = none;
            role_ids = service_provider_role.id ∷ [];
          }))
          (delete_verification_code body.email CodeType.register body.code)
    create_service_provider (record {
      address = body.address;
      tax_id = body.tax_id;
      company_type = body.company_type;
      description = body.description;
      user_id = (pair.0).id;
      verification_status = pending;
    })

  unfoldable pub register_provider : RegisterProviderBody → Action (Unit {0})
  register_provider body = catch (try_register_provider body) unique_as_email
