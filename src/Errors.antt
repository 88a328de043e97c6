-- ===== src/Errors.antt =====
-- What the services throw (apps/auth/src/auth.error.ts, apps/manager/src/manager.error.ts, the
-- exceptions of the framework, the errors of Prisma), and the tests on errors of
-- libs/common/helpers.ts.
pub mod Contents
use capstone_home_care_be_mi.Common.{String, Bool, true, false, ◌===◌}

-- The `RpcException` constants of the auth service.
pub data AuthError : Type 0 where
  invalid_otp otp_expired failed_to_send_otp refresh_token_revoked email_already_exists : AuthError
  service_provider_already_exists invalid_password email_not_found : AuthError
  refresh_token_already_used unauthorized_access google_user_info_error invalid_totp : AuthError
  totp_already_enabled totp_not_enabled invalid_totp_and_code : AuthError

-- The `RpcException` constants of the manager service.
pub data ManagerError : Type 0 where
  service_provider_not_found service_provider_already_exists same_verification_status : ManagerError
  invalid_company_type user_already_linked_to_provider : ManagerError

-- `unauthorized` and `forbidden` carry the message; `prisma` carries the code of a
-- `PrismaClientKnownRequestError`; `failure` is any other error.
pub data Error : Type 0 where
  rpc : AuthError → Error
  manager : ManagerError → Error
  unauthorized forbidden : String → Error
  prisma : String → Error
  failure : String → Error

-- `error instanceof HttpException`. An `RpcException` is not one.
abbrev pub is_http_exception : Error → Bool
is_http_exception (unauthorized _) = true
is_http_exception (forbidden _) = true
is_http_exception _ = false

unfoldable pub is_unique_constraint_prisma_error : Error → Bool
is_unique_constraint_prisma_error (prisma code) = code === "P2002"
is_unique_constraint_prisma_error _ = false

unfoldable pub is_not_found_prisma_error : Error → Bool
is_not_found_prisma_error (prisma code) = code === "P2025"
is_not_found_prisma_error _ = false

unfoldable pub is_foreign_key_constraint_prisma_error : Error → Bool
is_foreign_key_constraint_prisma_error (prisma code) = code === "P2003"
is_foreign_key_constraint_prisma_error _ = false

-- The messages that the framework gives an exception made with no argument.
abbrev pub plain_unauthorized : Error
plain_unauthorized = unauthorized "Unauthorized"

abbrev pub plain_forbidden : Error
plain_forbidden = forbidden "Forbidden"

pub data Result {ℓ} (A : Type ℓ) : Type ℓ where
  ok : A → Result A
  err : Error → Result A
