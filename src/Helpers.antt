-- ===== src/Helpers.antt =====
-- libs/common/helpers.ts
pub mod Otp
pub mod Names
pub mod Digits
pub mod Week
pub use Otp.{digit}
unfoldable pub use Otp.{generate_otp, decimal}
