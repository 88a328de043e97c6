-- ===== src/Schemas/Bodies.antt =====
-- The schemas: shared-user.model.ts, shared-provider.model.ts, auth.model.ts, manager.model.ts and the
-- enumerations of common.constants.ts and auth.constant.ts. The messages of single tests are left out.
use capstone_home_care_be_mi.Common.{
  String, Bool, true, false, not, ◌&&◌, Option, some, none, List, [], ◌∷◌, ◌==◌, ◌===◌, is_some,
  if◌then◌else◌,
}
use capstone_home_care_be_mi.Schemas.Zod.{
  Value, text, number, null, Check, min, max, length, email, url, regex, Kind, string, enumeration,
  unread, Field, Issue, Schema, object, pick, extend, merge, strict, super_refine,
}

abbrev pub field : String → Kind → Field
field key kind = record { key = key; kind = kind; optional = false; nullable = false }

abbrev nullable_field : String → Kind → Field
nullable_field key kind = record { key = key; kind = kind; optional = false; nullable = true }

abbrev pub optional_field : String → Kind → Field
optional_field key kind = record { key = key; kind = kind; optional = true; nullable = false }

-- `.nullable().optional()`
abbrev pub nullish_field : String → Kind → Field
nullish_field key kind = record { key = key; kind = kind; optional = true; nullable = true }

abbrev plain : List Check → Kind
plain = string false

abbrev trimmed : List Check → Kind
trimmed = string true

abbrev pub user_status_enum : Kind
user_status_enum = enumeration ("ACTIVE" ∷ "INACTIVE" ∷ "BLOCKED" ∷ [])

abbrev pub company_type_enum : Kind
company_type_enum =
    enumeration
      ("SOLE_PROPRIETORSHIP" ∷ "LIMITED_LIABILITY" ∷ "JOINT_STOCK" ∷ "PARTNERSHIP" ∷ "OTHER" ∷ [])

abbrev pub verification_status_enum : Kind
verification_status_enum = enumeration ("PENDING" ∷ "VERIFIED" ∷ "REJECTED" ∷ [])

abbrev pub user_schema : Schema
user_schema = object (
    field "id" Kind.number
    ∷ field "email" (plain (email ∷ []))
    ∷ field "phone" (plain (min 9 ∷ max 100 ∷ []))
    ∷ field "password" (plain (min 6 ∷ max 100 ∷ []))
    ∷ field "name" (plain (min 1 ∷ max 100 ∷ []))
    ∷ nullable_field "avatar" (plain [])
    ∷ field "status" user_status_enum
    ∷ nullable_field "totpSecret" (plain [])
    ∷ field "roles" unread
    ∷ field "createdAt" unread
    ∷ field "updatedAt" unread
    ∷ nullable_field "deletedAt" unread
    ∷ nullable_field "createdById" Kind.number
    ∷ nullable_field "deletedById" Kind.number
    ∷ nullable_field "updatedById" Kind.number
    ∷ [])

abbrev pub service_provider_schema : Schema
service_provider_schema = object (
    field "id" Kind.number
    ∷ field "userId" Kind.positive
    ∷ field "taxId" (trimmed (min 10 ∷ max 100 ∷ regex "^[A-Z0-9-]+$" ∷ []))
    ∷ field "companyType" company_type_enum
    ∷ nullish_field "licenseNo" (trimmed (max 100 ∷ []))
    ∷ nullish_field "industry" (trimmed (min 2 ∷ max 255 ∷ []))
    ∷ nullish_field "description" (trimmed (min 10 ∷ max 1000 ∷ []))
    ∷ field "address" (trimmed (min 10 ∷ []))
    ∷ nullish_field "logo" (plain (url ∷ max 1000 ∷ []))
    ∷ field "verificationStatus" verification_status_enum
    ∷ nullish_field "verifiedAt" unread
    ∷ nullish_field "verifiedById" Kind.positive
    ∷ field "createdAt" unread
    ∷ field "updatedAt" unread
    ∷ [])

-- `a === b` of two values of a body
abbrev pub same_value : Option Value → Option Value → Bool
same_value none none = true
same_value (some (text a)) (some (text b)) = a === b
same_value (some (number a)) (some (number b)) = a == b
same_value (some null) (some null) = true
same_value _ _ = false

abbrev issue_unless : Bool → String → String → List Issue
issue_unless b path message = if b then [] else record { path = path; message = message } ∷ []

-- `RegisterBody`, before the refinement
abbrev pub register_body : Schema
register_body = strict (
    extend (pick user_schema ("email" ∷ "password" ∷ "name" ∷ "phone" ∷ [])) (
      field "confirmPassword" (plain (min 6 ∷ max 100 ∷ []))
      ∷ field "code" (plain (length 6 ∷ []))
      ∷ []))

abbrev pub register_body_schema : Schema
register_body_schema = super_refine register_body λ get.
    issue_unless (same_value (get "confirmPassword") (get "password")) "confirmPassword"
      "Password and cofirm password must match"

abbrev pub register_provider_body_schema : Schema
register_provider_body_schema =
    super_refine
      (merge
        (pick service_provider_schema
          ("taxId" ∷ "companyType" ∷ "industry" ∷ "address" ∷ "description" ∷ []))
        register_body)
      λ get.
        issue_unless (same_value (get "password") (get "confirmPassword")) "confirmNewPassword"
          "Password and confirm password must be the same"

abbrev pub verification_code_schema : Schema
verification_code_schema = object (
    field "id" Kind.number
    ∷ field "email" (plain (email ∷ []))
    ∷ field "code" (plain (length 6 ∷ []))
    ∷ field "type" (enumeration ("REGISTER" ∷ "FORGOT_PASSWORD" ∷ "DISABLE_2FA" ∷ "LOGIN" ∷ []))
    ∷ field "expiresAt" unread
    ∷ field "createdAt" unread
    ∷ [])

abbrev pub forgot_password_body_schema : Schema
forgot_password_body_schema =
    super_refine
      (strict (
        object (
          field "email" (plain (email ∷ []))
          ∷ field "code" (plain (length 6 ∷ []))
          ∷ field "newPassword" (plain (min 6 ∷ max 100 ∷ []))
          ∷ field "confirmNewPassword" (plain (min 6 ∷ max 100 ∷ []))
          ∷ [])))
      λ get.
        issue_unless (same_value (get "confirmNewPassword") (get "newPassword"))
          "confirmNewPassword" "Password and confirm password must be the same"

abbrev pub send_otp_body_schema : Schema
send_otp_body_schema = strict (pick verification_code_schema ("email" ∷ "type" ∷ []))

-- The message that stands for both codes.
abbrev one_code : String
one_code = "You must provide either a 2FA authentication code or an OTP code. Do not provide both."

abbrev both_issues : Bool → List Issue
both_issues wrong =
    if wrong
    then record { path = "totpCode"; message = one_code }
      ∷ record { path = "code"; message = one_code }
      ∷ []
    else []

abbrev codes_fields : List Field
codes_fields =
    optional_field "totpCode" (plain (length 6 ∷ []))
    ∷ optional_field "code" (plain (length 6 ∷ []))
    ∷ []

abbrev pub login_body_schema : Schema
login_body_schema =
    super_refine (strict (extend (pick user_schema ("email" ∷ "password" ∷ [])) codes_fields))
      λ get. both_issues (is_some (get "totpCode") && is_some (get "code"))

abbrev pub refresh_token_body_schema : Schema
refresh_token_body_schema = strict (object (field "refreshToken" (plain []) ∷ []))

abbrev same_bool : Bool → Bool → Bool
same_bool true b = b
same_bool false b = not b

abbrev pub disable_two_factor_body_schema : Schema
disable_two_factor_body_schema =
    super_refine (object codes_fields)
      λ get. both_issues (same_bool (is_some (get "totpCode")) (is_some (get "code")))

abbrev pub update_status_provider_body_schema : Schema
update_status_provider_body_schema =
    strict (pick service_provider_schema ("id" ∷ "verificationStatus" ∷ []))
