-- ===== src/Auth.antt =====
-- apps/auth/src/auth.service.ts, method by method.
mod Bodies
mod Service
pub mod Codes
pub mod Sessions
pub mod Rotated
pub mod Orders
pub mod Rotation
pub mod Revocation
pub mod Register
pub mod Sending
pub mod Providers
pub mod Google
pub mod Recovery
pub mod Login
pub mod Issuing
pub mod Returning
pub mod Closing
pub use Bodies.*
pub use Service.{logout_error, refresh_error, unique_as_email}
unfoldable pub use Service.{
  validate_verification_code, try_register, register, try_refresh_token, try_logout,
  try_register_provider, send_otp, login, second_factor, generate_tokens, refresh_token, logout,
  forgot_password, register_provider,
}
