-- ===== src/Gateway/Readings.antt =====
-- The readers of the bodies accept every body that its schema accepted.
use capstone_home_care_be_mi.Common.{◌≡◌, refl, String, some, [], ◌∷◌}
use capstone_home_care_be_mi.Auth.{
  RegisterBody, SendOtpBody, LoginBody, RefreshTokenBody, ForgotPasswordBody, RegisterProviderBody,
}
use capstone_home_care_be_mi.Managers.{UpdateStatusProviderBody}
use capstone_home_care_be_mi.Schemas.Zod.{text, Check, min, max, Fields, lookup, Zod, SoundZod}
use capstone_home_care_be_mi.Schemas.Bodies.{
  register_body_schema, register_provider_body_schema, send_otp_body_schema, login_body_schema,
  refresh_token_body_schema, forgot_password_body_schema, update_status_provider_body_schema,
}
use capstone_home_care_be_mi.Schemas.Fields.{field-Passed, accepts-fields}
use capstone_home_care_be_mi.Schemas.Accepted.{
  register_body_schema-IsRegisterData, register_provider_body_schema-IsProviderData,
  forgot_password_body_schema-IsForgotData, login_body_schema-IsLoginData,
}
use capstone_home_care_be_mi.Gateway.Payloads.{
  object, with_client, refresh_payload, read_register, read_register_provider, read_send_otp,
  read_login, read_refresh_token, read_forgot_password, read_update_status,
}
use capstone_home_care_be_mi.Gateway.Accounts.{read_register-data}
use capstone_home_care_be_mi.Gateway.Kinds.{
  type_names, company_names, status_names, one_type, one_company, one_status,
  optional_text_of-IsCode, field-Enumerated, field-Numbered, field-Nullish,
}

read_refresh_token-text :
    (out : Fields) (ip agent t : String)
    → lookup "refreshToken" out ≡ some (text t)
    → read_refresh_token (refresh_payload out (record { ip = ip; user_agent = some agent }))
      ≡ some (record { refresh_token = t; user_agent = some agent; ip = ip })
unfolding read_refresh_token refresh_payload with_client
read_refresh_token-text out ip agent t e = rw (e, refresh_payload) refl

module _ (z : Zod) where
  module _ (s : SoundZod z) (v out : Fields) where
    pub reads_register :
        z.parse register_body_schema v ≡ some out
        → (b : RegisterBody) × (read_register (object out) ≡ some b)
    reads_register h =
        let ((body, form), _) = register_body_schema-IsRegisterData z s v out h in
        (body, read_register-data z out body form)

    pub reads_register_provider :
        z.parse register_provider_body_schema v ≡ some out
        → (b : RegisterProviderBody) × (read_register_provider (object out) ≡ some b)
    unfolding read_register_provider
    reads_register_provider h =
        let d = register_provider_body_schema-IsProviderData z s v out h in
        let f =
          accepts-fields z register_provider_body_schema v out
            (s.parse-ok register_provider_body_schema v out h) in
        let (company, e₁, named) =
          field-Enumerated z "companyType" company_names (lookup "companyType" v)
            (lookup "companyType" out) f.1.0 in
        let (company_type, e₂) = one_company company named in
        let (industry, e₃) =
          field-Nullish z "industry" (min 2 ∷ max 255 ∷ []) (lookup "industry" v)
            (lookup "industry" out) f.1.1.0 in
        let (description, e₄) =
          field-Nullish z "description" (min 10 ∷ max 1000 ∷ []) (lookup "description" v)
            (lookup "description" out) f.1.1.1.0 in
        (
          record {
            account = d.body;
            tax_id = d.tax_id;
            company_type = company_type;
            industry = industry;
            address = d.address;
            description = description;
          },
          rw
              (
                read_register-data z out d.body d.account,
                d.has_tax_id,
                e₁,
                e₂,
                e₃,
                d.has_address,
                e₄,
              )
              refl,
        )

    pub reads_send_otp :
        z.parse send_otp_body_schema v ≡ some out
        → (b : SendOtpBody) × (read_send_otp (object out) ≡ some b)
    unfolding read_send_otp
    reads_send_otp h =
        let f =
          accepts-fields z send_otp_body_schema v out (s.parse-ok send_otp_body_schema v out h) in
        let (e, e₁, _) =
          field-Passed z "email" (Check.email ∷ []) (lookup "email" v) (lookup "email" out) f.0 in
        let (t, e₂, named) =
          field-Enumerated z "type" type_names (lookup "type" v) (lookup "type" out) f.1.0 in
        let (type, e₃) = one_type t named in
        (record { email = e; type = type }, rw (e₁, e₂, e₃) refl)

    pub reads_forgot_password :
        z.parse forgot_password_body_schema v ≡ some out
        → (b : ForgotPasswordBody) × (read_forgot_password (object out) ≡ some b)
    unfolding read_forgot_password
    reads_forgot_password h =
        let ((body, d), _) = forgot_password_body_schema-IsForgotData z s v out h in
        (body, rw (d.email, d.code, d.new_password, d.confirm_new_password) refl)

    pub reads_update_status :
        z.parse update_status_provider_body_schema v ≡ some out
        → (b : UpdateStatusProviderBody) × (read_update_status (object out) ≡ some b)
    unfolding read_update_status
    reads_update_status h =
        let f =
          accepts-fields z update_status_provider_body_schema v out
            (s.parse-ok update_status_provider_body_schema v out h) in
        let (n, e₁) = field-Numbered z "id" (lookup "id" v) (lookup "id" out) f.0 in
        let (t, e₂, named) =
          field-Enumerated z "verificationStatus" status_names (lookup "verificationStatus" v)
            (lookup "verificationStatus" out) f.1.0 in
        let (status, e₃) = one_status t named in
        (record { id = n; verification_status = status }, rw (e₁, e₂, e₃) refl)

    -- the client's header is there
    module _ (ip agent : String) where
      pub reads_login :
          z.parse login_body_schema v ≡ some out
          → (b : LoginBody) × (read_login
                (object (with_client out (record { ip = ip; user_agent = some agent })))
              ≡ some b)
      unfolding read_login with_client
      reads_login h =
          let d = login_body_schema-IsLoginData z s v out h in
          let (totp, e₁) = optional_text_of-IsCode (lookup "totpCode" out) d.totp_code in
          let (code, e₂) = optional_text_of-IsCode (lookup "code" out) d.code in
          (
            record {
              email = d.email;
              password = d.password;
              totp_code = totp;
              code = code;
              user_agent = agent;
              ip = ip;
            },
            rw (d.has_email, d.has_password, e₁, e₂) refl,
          )

      pub reads_refresh_token :
          z.parse refresh_token_body_schema v ≡ some out
          → (b : RefreshTokenBody) × (read_refresh_token
                (refresh_payload out (record { ip = ip; user_agent = some agent }))
              ≡ some b)
      unfolding read_refresh_token refresh_payload with_client
      reads_refresh_token h =
          let f =
            accepts-fields z refresh_token_body_schema v out
              (s.parse-ok refresh_token_body_schema v out h) in
          let (t, e, _) =
            field-Passed z "refreshToken" [] (lookup "refreshToken" v) (lookup "refreshToken" out)
              f.0 in
          (
            record { refresh_token = t; user_agent = some agent; ip = ip },
            read_refresh_token-text out ip agent t e,
          )
