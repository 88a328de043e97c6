-- ===== src/Tests/Forms.antt =====
-- The schemas at concrete bodies, read by a library that trims nothing and takes every address.
use capstone_home_care_be_mi.Common.{
  ◌≡◌, refl, String, Bool, true, false, some, none, [], ◌∷◌, ◌==◌, leb, utf16_length, if◌then◌else◌,
  arith, Bool-cases, inl, inr,
}
use capstone_home_care_be_mi.Schemas.Zod.{
  text, Check, min, max, length, email, url, regex, Fields, Zod, SoundZod, accepts,
}
use capstone_home_care_be_mi.Schemas.Bodies.{
  register_body_schema, register_provider_body_schema, login_body_schema,
  forgot_password_body_schema,
}
use capstone_home_care_be_mi.Schemas.Forms.{IsProviderData}
use capstone_home_care_be_mi.Schemas.Accepted.{register_provider_body_schema-IsProviderData}

abbrev test : Check → String → Bool
test (min n) s = leb n (utf16_length s)
test (max n) s = leb (utf16_length s) n
test (length n) s = utf16_length s == n
test email s = true
test url s = true
test (regex r) s = true

abbrev tests : Zod
tests = record { parse = λ s v. none; check = test; trim = λ s. s; reads = λ x y. false }

abbrev pub reader : Zod
reader = record {
  parse = λ s v. if accepts tests s v v then some v else none;
  check = test;
  trim = λ s. s;
  reads = λ x y. false;
}

pub reader-SoundZod : SoundZod reader
reader-SoundZod = record {
  parse-ok = λ s v out h. elim (Bool-cases (accepts tests s v v)) [
    | inl e ↦ let same : v ≡ out = ground arith in rw (← same) e
    | inr e ↦ absurd (ground arith)
  ];
  check-min = λ n s h. ground arith;
  check-max = λ n s h. ground arith;
  check-length = λ n s. (λ h. ground arith, λ h. ground arith);
}

abbrev account : Fields
account =
    ("email", text "ann@x.org")
    ∷ ("password", text "secret")
    ∷ ("name", text "Ann")
    ∷ ("phone", text "123456789")
    ∷ ("confirmPassword", text "secret")
    ∷ ("code", text "123456")
    ∷ []

account-read : reader.parse register_body_schema account ≡ some account
account-read = refl

other_password : reader.parse register_body_schema (("password", text "secrets") ∷ account) ≡ none
other_password = refl

abbrev company : Fields
company =
    ("taxId", text "0123456789")
    ∷ ("companyType", text "OTHER")
    ∷ ("address", text "1 Main Street")
    ∷ account

company-read : reader.parse register_provider_body_schema company ≡ some company
company-read = refl

register_provider_body_schema-IsProviderData_example : IsProviderData reader company company
register_provider_body_schema-IsProviderData_example =
    register_provider_body_schema-IsProviderData reader reader-SoundZod company company company-read

abbrev credentials : Fields
credentials =
    ("email", text "ann@x.org") ∷ ("password", text "secret") ∷ ("code", text "123456") ∷ []

credentials-read : reader.parse login_body_schema credentials ≡ some credentials
credentials-read = refl

both_codes : reader.parse login_body_schema (("totpCode", text "123456") ∷ credentials) ≡ none
both_codes = refl

abbrev reset : Fields
reset =
    ("email", text "ann@x.org")
    ∷ ("code", text "123456")
    ∷ ("newPassword", text "secrets")
    ∷ ("confirmNewPassword", text "secrets")
    ∷ []

reset-read : reader.parse forgot_password_body_schema reset ≡ some reset
reset-read = refl

other_confirmation :
    reader.parse forgot_password_body_schema (("confirmNewPassword", text "secret") ∷ reset) ≡ none
other_confirmation = refl
