-- ===== src/Tests/Accounts.antt =====
-- Logging in, sending a code and changing a password, at concrete states; and a weekday.
use capstone_home_care_be_mi.Common.{ap, ◌≡◌, refl, none, [], ◌∷◌, arith}
use capstone_home_care_be_mi.Data.{same_type, CodeType}
use capstone_home_care_be_mi.Errors.{ok}
use capstone_home_care_be_mi.World.{World, promise_all}
use capstone_home_care_be_mi.Services.{
  sign_access_token, sign_refresh_token, verify_refresh_token, hash, compare, send_otp_email,
}
use capstone_home_care_be_mi.Helpers.{generate_otp}
use capstone_home_care_be_mi.Repos.{
  include_all, find_user, create_verification_code, find_unique_verification_code,
  create_refresh_token, create_device, delete_verification_code, find_unique_user_include_role,
  find_unique_user, update_password,
}
use capstone_home_care_be_mi.Auth.{
  SendOtpBody, LoginBody, ForgotPasswordBody, Tokens, validate_verification_code, send_otp,
  second_factor, login, generate_tokens, forgot_password,
}
use capstone_home_care_be_mi.Auth.Login.{IsLoggedIn, login-IsLoggedIn}
use capstone_home_care_be_mi.Auth.Recovery.{
  IsSent, send_otp-IsSent, IsReset, forgot_password-IsReset,
}
use capstone_home_care_be_mi.Auth.Sending.{send_otp_returns}
use capstone_home_care_be_mi.Tests.Sample.{
  sample, sample-SoundTables, sample-LiveTables, sample-InRange,
}
use capstone_home_care_be_mi.Tests.Cases.{before}

abbrev pub login_body : LoginBody
login_body = record {
  email = "ann@x";
  password = "secret";
  totp_code = none;
  code = none;
  user_agent = "new";
  ip = "1";
}

abbrev pub issued : Tokens
issued = record { access_token = "*******"; refresh_token = "*********" }

pub login-ann :
    login ⦃p = sample⦄ login_body before ≡ (ok issued, (login ⦃p = sample⦄ login_body before).1)
unfolding login find_unique_user_include_role find_user include_all compare second_factor
    create_device generate_tokens promise_all sign_access_token sign_refresh_token
    verify_refresh_token create_refresh_token
login-ann = refl

login-IsLoggedIn_example :
    IsLoggedIn ⦃p = sample⦄ login_body before (login ⦃p = sample⦄ login_body before).1 issued
login-IsLoggedIn_example =
    login-IsLoggedIn ⦃p = sample⦄ sample-SoundTables before login_body issued login-ann

abbrev reset_otp : SendOtpBody
reset_otp = record { email = "ann@x"; type = CodeType.forgot_password }

send_otp-ann :
    send_otp ⦃p = sample⦄ reset_otp before ≡ (ok tt, (send_otp ⦃p = sample⦄ reset_otp before).1)
unfolding send_otp find_unique_user generate_otp create_verification_code send_otp_email
send_otp-ann = refl

send_otp-IsSent_example :
    IsSent ⦃p = sample⦄ reset_otp before (send_otp ⦃p = sample⦄ reset_otp before).1
send_otp-IsSent_example =
    send_otp-IsSent ⦃p = sample⦄ sample-SoundTables before reset_otp send_otp-ann

abbrev with_code : World
with_code = record before {
  codes =
      record {
        id = 3;
        email = "ann@x";
        code = "333333";
        type = CodeType.forgot_password;
        expires_at = 200;
      }
      ∷ [];
}

abbrev reset_body : ForgotPasswordBody
reset_body = record {
  email = "ann@x";
  code = "333333";
  new_password = "better";
  confirm_new_password = "better";
}

forgot_password-ann :
    forgot_password ⦃p = sample⦄ reset_body with_code
    ≡ (ok tt, (forgot_password ⦃p = sample⦄ reset_body with_code).1)
unfolding forgot_password find_unique_user validate_verification_code find_unique_verification_code
    hash promise_all delete_verification_code update_password
forgot_password-ann = refl

forgot_password-IsReset_example :
    IsReset ⦃p = sample⦄ reset_body with_code (forgot_password ⦃p = sample⦄ reset_body with_code).1
forgot_password-IsReset_example =
    forgot_password-IsReset ⦃p = sample⦄ sample-SoundTables with_code reset_body forgot_password-ann

send_otp_returns_example : (send_otp ⦃p = sample⦄ reset_otp before).0 ≡ ok tt
send_otp_returns_example =
    send_otp_returns ⦃p = sample⦄ sample-SoundTables sample-LiveTables sample-InRange before
      reset_otp (omega arith)
      (λ e. absurd (ground (arith, ap (λ k. same_type k CodeType.register) e)))
      (λ e z. ground arith) (λ t e. refl)
