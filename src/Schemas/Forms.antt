-- ===== src/Schemas/Forms.antt =====
-- What the data of an accepted body is, form by form.
use capstone_home_care_be_mi.Common.{
  ◌≡◌, ◌⊎◌, ◌≤◌, String, true, Option, some, none, All, utf16_length,
}
use capstone_home_care_be_mi.Auth.{RegisterBody, ForgotPasswordBody}
use capstone_home_care_be_mi.Schemas.Zod.{
  Value, text, Check, regex, Fields, lookup, Zod, shape, has_key,
}
use capstone_home_care_be_mi.Schemas.Bodies.{register_provider_body_schema}

-- The data of an accepted body of `register`.
pub record IsRegisterData (z : Zod) (out : Fields) (body : RegisterBody) : Type 0 where
  pub email : lookup "email" out ≡ some (text body.email)
  pub password : lookup "password" out ≡ some (text body.password)
  pub name : lookup "name" out ≡ some (text body.name)
  pub phone : lookup "phone" out ≡ some (text body.phone)
  pub confirm_password : lookup "confirmPassword" out ≡ some (text body.confirm_password)
  pub code : lookup "code" out ≡ some (text body.code)
  pub is_email : z.check Check.email body.email ≡ true
  pub password_min : 6 ≤ utf16_length body.password
  pub password_max : utf16_length body.password ≤ 100
  pub name_min : 1 ≤ utf16_length body.name
  pub phone_min : 9 ≤ utf16_length body.phone
  pub confirmed : body.confirm_password ≡ body.password
  pub code_length : utf16_length body.code ≡ 6

-- The data of an accepted body of `registerProvider`. `v` is the body as it came.
pub record IsProviderData (z : Zod) (v out : Fields) : Type 0 where
  pub body : RegisterBody
  pub account : IsRegisterData z out body
  pub tax_id : String
  pub has_tax_id : lookup "taxId" out ≡ some (text tax_id)
  pub tax_id_given : (a : String) × (lookup "taxId" v ≡ some (text a)) × (tax_id ≡ z.trim a)
  pub tax_id_min : 10 ≤ utf16_length tax_id
  pub tax_id_max : utf16_length tax_id ≤ 100
  pub tax_id_form : z.check (regex "^[A-Z0-9-]+$") tax_id ≡ true
  pub address : String
  pub has_address : lookup "address" out ≡ some (text address)
  pub address_given : (a : String) × (lookup "address" v ≡ some (text a)) × (address ≡ z.trim a)
  pub address_min : 10 ≤ utf16_length address
  pub only : All (λ kv. has_key (shape register_provider_body_schema) kv.0 ≡ true) v

-- A code that is left out, or one of six characters.
abbrev pub IsCode : Option Value → Type 0
IsCode o = (o ≡ none) ⊎ ((s : String) × (o ≡ some (text s)) × (utf16_length s ≡ 6))

-- The data of an accepted body of `login`.
pub record IsLoginData (z : Zod) (out : Fields) : Type 0 where
  pub email : String
  pub has_email : lookup "email" out ≡ some (text email)
  pub is_email : z.check Check.email email ≡ true
  pub password : String
  pub has_password : lookup "password" out ≡ some (text password)
  pub password_min : 6 ≤ utf16_length password
  pub totp_code : IsCode (lookup "totpCode" out)
  pub code : IsCode (lookup "code" out)
  pub one_at_most : (lookup "totpCode" out ≡ none) ⊎ (lookup "code" out ≡ none)

pub record IsForgotData (z : Zod) (out : Fields) (body : ForgotPasswordBody) : Type 0 where
  pub email : lookup "email" out ≡ some (text body.email)
  pub code : lookup "code" out ≡ some (text body.code)
  pub new_password : lookup "newPassword" out ≡ some (text body.new_password)
  pub confirm_new_password : lookup "confirmNewPassword" out ≡ some (text body.confirm_new_password)
  pub is_email : z.check Check.email body.email ≡ true
  pub code_length : utf16_length body.code ≡ 6
  pub new_password_min : 6 ≤ utf16_length body.new_password
  pub confirmed : body.confirm_new_password ≡ body.new_password
