-- ===== src/Tests/Settings.antt =====
-- An environment that a service starts in, and one that it does not start in.
use capstone_home_care_be_mi.Common.{◌≡◌, refl, String, some, [], ◌∷◌, All}
use capstone_home_care_be_mi.Schemas.Zod.{text, Fields, lookup}
use capstone_home_care_be_mi.Schemas.Environment.{
  running, exited, settings, validate, validate-settings,
}
use capstone_home_care_be_mi.Tests.Forms.{reader, reader-SoundZod}

abbrev environment : Fields
environment =
    ("PATH", text "/bin")
    ∷ ("DATABASE_URL_MAIN", text "postgres://db")
    ∷ ("ACCESS_TOKEN_SECRET", text "a")
    ∷ ("ACCESS_TOKEN_EXPIRES_IN", text "5m")
    ∷ ("REFRESH_TOKEN_SECRET", text "r")
    ∷ ("REFRESH_TOKEN_EXPIRES_IN", text "1d")
    ∷ ("APP_NAME", text "HomeCare")
    ∷ ("ADMIN_PASSWORD", text "p")
    ∷ ("ADMIN_EMAIL", text "admin@x.org")
    ∷ ("ADMIN_PHONE_NUMBER", text "1")
    ∷ ("ADMIN_NAME", text "Admin")
    ∷ ("PAYMENT_API_KEY", text "k")
    ∷ ("RESEND_API_KEY", text "k")
    ∷ ("MANAGER_HTTP_PORT", text "3003")
    ∷ ("MANAGER_TCP_PORT", text "3004")
    ∷ ("OTP_EXPIRES_IN", text "5m")
    ∷ ("GOOGLE_CLIENT_ID", text "i")
    ∷ ("GOOGLE_CLIENT_SECRET", text "s")
    ∷ ("GOOGLE_REDIRECT_URI", text "https://x.org")
    ∷ ("S3_ACCESS_KEY", text "a")
    ∷ ("S3_SECRET_KEY", text "s")
    ∷ ("S3_BUCKET_NAME", text "b")
    ∷ ("S3_REGION", text "r")
    ∷ ("S3_ENPOINT", text "https://s3")
    ∷ []

started : validate reader environment ≡ running environment
unfolding validate
started = refl

no_start : validate reader (("PATH", text "/bin") ∷ []) ≡ exited 1
unfolding validate
no_start = refl

validate-settings_example :
    All (λ key. (t : String) × (lookup key environment ≡ some (text t))) settings
validate-settings_example = validate-settings reader reader-SoundZod environment environment started
