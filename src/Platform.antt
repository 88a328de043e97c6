-- ===== src/Platform.antt =====
-- What the program calls and does not implement: Prisma, bcrypt, jsonwebtoken, otpauth, the mail
-- service, the configuration, the clock and the random sources. They are the fields of a record
-- that every operation takes as a parameter; each is given the number of such calls made before.
mod Tables
mod Schema
pub mod Sound
pub use Tables.*
pub use Schema.*
use capstone_home_care_be_mi.Common.{ℕ, String, Bool, Option, List}
use capstone_home_care_be_mi.Errors.{Result}
use capstone_home_care_be_mi.Data.{
  RoleRef, User, NewUser, Profile, Device, NewDevice, RefreshToken, NewRefreshToken,
  VerificationCode, NewVerificationCode, Role, Permission, ServiceProvider, NewServiceProvider,
  Staff, Category,
}

-- The payload of a token, as libs/common/src/types/jwt.type.ts has it.
pub record AccessTokenPayloadCreate : Type 0 where
  pub user_id : ℕ
  pub device_id : ℕ
  pub provider_id : Option ℕ
  pub staff_provider_id : Option ℕ
  pub roles : List RoleRef

-- What a verified token says: the payload, and when it was issued and when it ends, in seconds.
pub record AccessTokenPayload : Type 0 where
  pub payload : AccessTokenPayloadCreate
  pub open payload use *
  pub exp : ℕ
  pub iat : ℕ

-- The second argument of `jwtService.sign`.
pub record SignOptions : Type 0 where
  pub secret : String
  pub expires_in : String
  pub algorithm : String

-- The argument of `new OTPAuth.TOTP`.
pub record TotpOptions : Type 0 where
  pub issuer : String
  pub label : String
  pub algorithm : String
  pub digits : ℕ
  pub period : ℕ
  pub secret : String

pub record Email : Type 0 where
  pub from_address : String
  pub to_address : String
  pub subject : String
  pub otp_code : String

pub record Platform : Type 0 where
  pub users : Queries User NewUser
  pub profiles : Queries Profile ℕ
  pub devices : Queries Device NewDevice
  pub tokens : Queries RefreshToken NewRefreshToken
  pub codes : Queries VerificationCode NewVerificationCode
  pub roles : Queries Role String
  pub permissions : Queries Permission String
  pub providers : Queries ServiceProvider NewServiceProvider
  pub staff : Queries Staff ℕ
  pub categories : Queries Category String
  -- the raw query of `getRole`: the roles of that name that are not deleted, one at most
  pub select_role : ℕ → String → List Role → Result (List Role)
  -- whether the second of two promises of a `Promise.all` takes effect first
  pub second_first : ℕ → Bool
  -- whether the first and the third of three promises take effect both before or both after the
  -- second
  pub second_apart : ℕ → Bool
  pub clock : ℕ → ℕ
  pub random_int : ℕ → ℕ → ℕ → ℕ
  pub uuid : ℕ → String
  pub hash : ℕ → String → ℕ → Result String
  pub compare : ℕ → String → String → Result Bool
  -- `sign` of a payload, a uuid and options; `verify` of a token under a secret
  pub sign : ℕ → AccessTokenPayloadCreate → String → SignOptions → String
  pub verify : ℕ → String → String → Result AccessTokenPayload
  -- the base32 text of `new OTPAuth.Secret()`, and `totp.toString()`
  pub new_secret : ℕ → String
  pub totp_uri : TotpOptions → String
  -- `totp.validate({ token, window })`: the distance, or null
  pub totp_validate : ℕ → TotpOptions → String → ℕ → Option ℕ
  -- the `error` of the answer
  pub send_email : ℕ → Email → Result (Option String)
  pub config : String → String
  pub ms : String → ℕ
