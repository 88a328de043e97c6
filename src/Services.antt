-- ===== src/Services.antt =====
-- The shared services of libs/common/src/services: token.service.ts, hashing.service.ts,
-- 2fa.service.ts and email.service.tsx, over the platform.
use capstone_home_care_be_mi.Common.{
  ℕ, ◌+◌, String, Bool, Option, some, none, [], ◌∷◌, ◌++◌, is_some,
}
use capstone_home_care_be_mi.Platform.{
  Platform, AccessTokenPayloadCreate, AccessTokenPayload, SignOptions, TotpOptions, Email,
}
use capstone_home_care_be_mi.Errors.{ok, err}
use capstone_home_care_be_mi.World.{Action, pure, sample, call, ◌>>=◌}

-- `TwoFactorSetupResType`
pub record TotpSecret : Type 0 where
  pub secret : String
  pub uri : String

module _ ⦃p : Platform⦄ where
  -- `new Date()`
  abbrev pub new_date : Action ℕ
  new_date = sample p.clock

  -- `jwtService.sign({ ...payload, uuid: uuid() }, options)`
  abbrev pub sign_with : SignOptions → AccessTokenPayloadCreate → Action String
  sign_with options payload = do uuid ← sample p.uuid; sample (λ t. p.sign t payload uuid options)

  abbrev pub access_options : SignOptions
  access_options = record {
    secret = p.config "ACCESS_TOKEN_SECRET";
    expires_in = p.config "ACCESS_TOKEN_EXPIRES_IN";
    algorithm = "HS256";
  }

  abbrev pub refresh_options : SignOptions
  refresh_options = record {
    secret = p.config "REFRESH_TOKEN_SECRET";
    expires_in = p.config "REFRESH_TOKEN_EXPIRES_IN";
    algorithm = "HS256";
  }

  unfoldable pub sign_access_token : AccessTokenPayloadCreate → Action String
  sign_access_token payload = sign_with access_options payload

  unfoldable pub sign_refresh_token : AccessTokenPayloadCreate → Action String
  sign_refresh_token payload = sign_with refresh_options payload

  unfoldable pub verify_refresh_token : String → Action AccessTokenPayload
  verify_refresh_token token = call (λ t. p.verify t token (p.config "REFRESH_TOKEN_SECRET"))

  unfoldable pub verify_access_token : String → Action AccessTokenPayload
  verify_access_token token = call (λ t. p.verify t token (p.config "ACCESS_TOKEN_SECRET"))

  abbrev pub salt_rounds : ℕ
  salt_rounds = 10

  unfoldable pub hash : String → Action String
  hash value = call (λ t. p.hash t value salt_rounds)

  unfoldable pub compare : String → String → Action Bool
  compare value hashed = call (λ t. p.compare t value hashed)

  abbrev pub create_totp : String → String → TotpOptions
  create_totp email secret = record {
    issuer = p.config "APP_NAME";
    label = email;
    algorithm = "SHA1";
    digits = 6;
    period = 30;
    secret = secret;
  }

  -- `createTOTP(email)` makes a secret where it is given none
  unfoldable pub generate_totp_secret : String → Action TotpSecret
  generate_totp_secret email = do
    secret ← sample p.new_secret
    pure (record { secret = secret; uri = p.totp_uri (create_totp email secret) })

  -- `secret` is not empty here: the caller tests it
  unfoldable pub verify_totp : String → String → String → Action Bool
  verify_totp email secret token = do
    delta ← sample (λ t. p.totp_validate t (create_totp email secret) token 1)
    pure (is_some delta)

  abbrev pub otp_email : String → String → Email
  otp_email email otp = record {
    from_address = "HomeCare360 <no-reply@homecare360.space>";
    to_address = email;
    subject = "OTP";
    otp_code = otp;
  }

  -- The mail is listed as sent unless the call throws or answers with an error.
  unfoldable pub send_otp_email : String → String → Action (Option String)
  send_otp_email email otp w = elim (p.send_email w.tick (otp_email email otp)) [
    | ok none ↦
        (ok none, record w { tick = w.tick + 1; mails = w.mails ++ otp_email email otp ∷ [] })
    | ok (some e) ↦ (ok (some e), record w { tick = w.tick + 1 })
    | err e ↦ (err e, record w { tick = w.tick + 1 })
  ]
