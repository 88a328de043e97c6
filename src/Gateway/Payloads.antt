-- ===== src/Gateway/Payloads.antt =====
-- The payloads that the handlers of apps/gateway/src/auth.gateway.controller.ts and
-- manager.gateway.controller.ts send, and the bodies that the handlers of
-- apps/auth/src/auth.controller.ts and apps/manager/src/managers.controller.ts read of them. The
-- services call connectMicroservice without inheritAppConfig, so that their pipes and guards do not
-- apply to messages.
use capstone_home_care_be_mi.Common.{
  ℕ, String, not, keep, Option, some, none, [], ◌∷◌, ◌===◌, if◌then◌else◌,
}
use capstone_home_care_be_mi.Data.{
  CodeType, disable_2fa, CompanyType, VerificationStatus, pending, verified, rejected,
}
use capstone_home_care_be_mi.Auth.{
  RegisterBody, SendOtpBody, LoginBody, RefreshTokenBody, ForgotPasswordBody, RegisterProviderBody,
}
use capstone_home_care_be_mi.Managers.{UpdateStatusProviderBody}
use capstone_home_care_be_mi.Schemas.Zod.{Value, text, number, null, Fields, lookup}

-- The data of a message: an object, a value that is none, or nothing.
pub data Payload : Type 0 where
  object : Fields → Payload
  value : Value → Payload
  undefined : Payload

-- `payload.key`. No message of the gateway to a handler that reads a field is without data.
abbrev pub property : String → Payload → Option Value
property key (object fields) = lookup key fields
property key (value v) = none
property key undefined = none

infixl 5 ◌>>=◌
abbrev pub ◌>>=◌ : {A B : Type 0} → Option A → (A → Option B) → Option B
none >>= k = none
some a >>= k = k a

abbrev pub text_of : Option Value → Option String
text_of (some (text s)) = some s
text_of _ = none

abbrev pub number_of : Option Value → Option ℕ
number_of (some (number n)) = some n
number_of _ = none

-- A field that may be left out, or null.
abbrev pub optional_text_of : Option Value → Option (Option String)
optional_text_of none = some none
optional_text_of (some null) = some none
optional_text_of (some (text s)) = some (some s)
optional_text_of _ = none

abbrev pub code_type_of : String → Option CodeType
code_type_of s =
    if "REGISTER" === s
    then some CodeType.register
    else if "FORGOT_PASSWORD" === s
    then some CodeType.forgot_password
    else if "LOGIN" === s
    then some CodeType.login
    else if "DISABLE_2FA" === s
    then some disable_2fa
    else none

abbrev pub company_type_of : String → Option CompanyType
company_type_of s =
    if "SOLE_PROPRIETORSHIP" === s
    then some CompanyType.sole_proprietorship
    else if "LIMITED_LIABILITY" === s
    then some CompanyType.limited_liability
    else if "JOINT_STOCK" === s
    then some CompanyType.joint_stock
    else if "PARTNERSHIP" === s
    then some CompanyType.partnership
    else if "OTHER" === s
    then some CompanyType.other
    else none

abbrev pub verification_status_of : String → Option VerificationStatus
verification_status_of s =
    if "PENDING" === s
    then some pending
    else if "VERIFIED" === s
    then some verified
    else if "REJECTED" === s
    then some rejected
    else none

-- The client that a request comes from: `@Ip()` and `@UserAgent()`, which is not there where the
-- request has no such header.
pub record Client : Type 0 where
  pub ip : String
  pub user_agent : Option String

abbrev pub without : String → Fields → Fields
without key fields = keep (λ f. not (f.0 === key)) fields

-- `{ ...body, ip, userAgent }` as it is sent: a field that is `undefined` is left out.
unfoldable pub with_client : Fields → Client → Fields
with_client body client = elim client.user_agent [
  | none ↦ ("ip", text client.ip) ∷ without "userAgent" body
  | some agent ↦ ("ip", text client.ip) ∷ ("userAgent", text agent) ∷ body
]

-- `body.refreshToken` as a payload.
unfoldable pub logout_payload : Fields → Payload
logout_payload body = elim (lookup "refreshToken" body) [ none ↦ undefined | some v ↦ value v ]

-- `{ refreshToken: body.refreshToken, ip, userAgent }`
unfoldable pub refresh_payload : Fields → Client → Payload
refresh_payload body client = elim (lookup "refreshToken" body) [
  | none ↦ object (with_client [] client)
  | some v ↦ object (with_client (("refreshToken", v) ∷ []) client)
]

-- The bodies that the handlers of the services are called with, where the payload is one.
unfoldable pub read_register : Payload → Option RegisterBody
read_register b = do
  email ← text_of (property "email" b)
  password ← text_of (property "password" b)
  name ← text_of (property "name" b)
  phone ← text_of (property "phone" b)
  confirm_password ← text_of (property "confirmPassword" b)
  code ← text_of (property "code" b)
  some (record {
    email = email;
    password = password;
    name = name;
    phone = phone;
    confirm_password = confirm_password;
    code = code;
  })

unfoldable pub read_register_provider : Payload → Option RegisterProviderBody
read_register_provider b = do
  account ← read_register b
  tax_id ← text_of (property "taxId" b)
  company ← text_of (property "companyType" b)
  company_type ← company_type_of company
  industry ← optional_text_of (property "industry" b)
  address ← text_of (property "address" b)
  description ← optional_text_of (property "description" b)
  some (record {
    account = account;
    tax_id = tax_id;
    company_type = company_type;
    industry = industry;
    address = address;
    description = description;
  })

unfoldable pub read_send_otp : Payload → Option SendOtpBody
read_send_otp b = do
  email ← text_of (property "email" b)
  name ← text_of (property "type" b)
  type ← code_type_of name
  some (record { email = email; type = type })

unfoldable pub read_login : Payload → Option LoginBody
read_login b = do
  email ← text_of (property "email" b)
  password ← text_of (property "password" b)
  totp_code ← optional_text_of (property "totpCode" b)
  code ← optional_text_of (property "code" b)
  user_agent ← text_of (property "userAgent" b)
  ip ← text_of (property "ip" b)
  some (record {
    email = email;
    password = password;
    totp_code = totp_code;
    code = code;
    user_agent = user_agent;
    ip = ip;
  })

unfoldable pub read_refresh_token : Payload → Option RefreshTokenBody
read_refresh_token b = do
  refresh_token ← text_of (property "refreshToken" b)
  user_agent ← optional_text_of (property "userAgent" b)
  ip ← text_of (property "ip" b)
  some (record { refresh_token = refresh_token; user_agent = user_agent; ip = ip })

unfoldable pub read_forgot_password : Payload → Option ForgotPasswordBody
read_forgot_password b = do
  email ← text_of (property "email" b)
  code ← text_of (property "code" b)
  new_password ← text_of (property "newPassword" b)
  confirm_new_password ← text_of (property "confirmNewPassword" b)
  some (record {
    email = email;
    code = code;
    new_password = new_password;
    confirm_new_password = confirm_new_password;
  })

-- The token that `logout` of the service is called with: a text, or `undefined`.
unfoldable pub read_logout : Payload → Option (Option String)
read_logout b = optional_text_of (property "refreshToken" b)

unfoldable pub read_update_status : Payload → Option UpdateStatusProviderBody
read_update_status b = do
  id ← number_of (property "id" b)
  name ← text_of (property "verificationStatus" b)
  status ← verification_status_of name
  some (record { id = id; verification_status = status })
