-- ===== src/Errors/Contents.antt =====
-- What the exception constants of apps/auth/src/auth.error.ts and apps/manager/src/manager.error.ts
-- are made of.
use capstone_home_care_be_mi.Common.{String, Option, some, none, List, [], ◌∷◌}
use capstone_home_care_be_mi.Errors.{
  AuthError, invalid_otp, otp_expired, failed_to_send_otp, refresh_token_revoked,
  email_already_exists, invalid_password, email_not_found, refresh_token_already_used,
  unauthorized_access, google_user_info_error, invalid_totp, totp_already_enabled, totp_not_enabled,
  invalid_totp_and_code, ManagerError, service_provider_not_found, same_verification_status,
  invalid_company_type, user_already_linked_to_provider, Error, rpc, manager,
}

-- The exception classes of the framework.
pub data HttpClass : Type 0 where
  unprocessable_entity unauthorized not_found bad_request : HttpClass

-- `path: 'code'` or `path: ['taxId', 'name']`
pub data IssuePath : Type 0 where
  field : String → IssuePath
  fields : List String → IssuePath

pub record Detail : Type 0 where
  pub message : String
  pub path : IssuePath

-- The argument that an exception is made with.
pub data Argument : Type 0 where
  details : List Detail → Argument
  detail : Detail → Argument
  message : String → Argument

pub record HttpException : Type 0 where
  pub class : HttpClass
  pub argument : Argument

abbrev detail_of : String → String → Detail
detail_of text key = record { message = text; path = field key }

abbrev listed : HttpClass → String → IssuePath → HttpException
listed class text path = record {
  class = class;
  argument = details (record { message = text; path = path } ∷ []);
}

abbrev unprocessable : String → String → Option HttpException
unprocessable text key = some (listed unprocessable_entity text (field key))

-- The exception that an `RpcException` of the auth service holds; `GoogleUserInfoError` holds a
-- plain `Error`.
unfoldable pub auth_exception : AuthError → Option HttpException
auth_exception invalid_otp = unprocessable "Error.InvalidOTP" "code"
auth_exception otp_expired = unprocessable "Error.OTPExpired" "code"
auth_exception failed_to_send_otp = unprocessable "Error.FailedToSendOTP" "code"
auth_exception refresh_token_revoked = some (record {
  class = unauthorized;
  argument = detail (detail_of "Error.RefreshTokenRevoked" "refreshToken");
})
auth_exception email_already_exists = unprocessable "Error.EmailAlreadyExists" "email"
auth_exception AuthError.service_provider_already_exists = some (
    listed unprocessable_entity "Error.ServiceProviderAlreadyExists"
      (fields ("taxId" ∷ "name" ∷ [])))
auth_exception invalid_password = unprocessable "Error.InvalidPassword" "password"
auth_exception email_not_found = unprocessable "Error.EmailNotFound" "email"
auth_exception refresh_token_already_used =
    some (record { class = unauthorized; argument = message "Error.RefreshTokenAlreadyUsed" })
auth_exception unauthorized_access =
    some (record { class = unauthorized; argument = message "Error.UnauthorizedAccess" })
auth_exception google_user_info_error = none
auth_exception invalid_totp = unprocessable "Error.InvalidTOTP" "totpCode"
auth_exception totp_already_enabled = unprocessable "Error.TOTPAlreadyEnabled" "totpCode"
auth_exception totp_not_enabled = unprocessable "Error.TOTPNotEnabled" "totpCode"
auth_exception invalid_totp_and_code = some (record {
  class = unprocessable_entity;
  argument = details (
      detail_of "Error.InvalidTOTPAndCode" "totpCode"
      ∷ detail_of "Error.InvalidTOTPAndCode" "code"
      ∷ []);
})

unfoldable pub manager_exception : ManagerError → HttpException
manager_exception service_provider_not_found =
    listed not_found "Error.ServiceProviderNotFound" (fields ("id" ∷ []))
manager_exception ManagerError.service_provider_already_exists =
    listed unprocessable_entity "Error.ServiceProviderAlreadyExists"
      (fields ("taxId" ∷ "name" ∷ []))
manager_exception same_verification_status =
    listed bad_request "Error.SameVerificationStatus" (fields ("verificationStatus" ∷ []))
manager_exception invalid_company_type =
    listed bad_request "Error.InvalidCompanyType" (fields ("companyType" ∷ []))
manager_exception user_already_linked_to_provider =
    listed unprocessable_entity "Error.UserAlreadyLinkedToProvider" (fields ("userId" ∷ []))

-- The exception within an `RpcException`. What else a service throws is no `RpcException`.
unfoldable pub held_exception : Error → Option HttpException
held_exception (rpc e) = auth_exception e
held_exception (manager e) = some (manager_exception e)
held_exception _ = none
