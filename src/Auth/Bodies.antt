-- ===== src/Auth/Bodies.antt =====
-- The request bodies of the auth service (libs/common/src/request-response-type/auth/auth.model.ts)
-- and what its methods answer with.
use capstone_home_care_be_mi.Common.{String, Option}
use capstone_home_care_be_mi.Data.{CodeType, CompanyType}

pub record RegisterBody : Type 0 where
  pub email : String
  pub password : String
  pub name : String
  pub phone : String
  pub confirm_password : String
  pub code : String

pub record SendOtpBody : Type 0 where
  pub email : String
  pub type : CodeType

-- A login body with what the gateway adds to it.
pub record LoginBody : Type 0 where
  pub email : String
  pub password : String
  pub totp_code : Option String
  pub code : Option String
  pub user_agent : String
  pub ip : String

pub record RefreshTokenBody : Type 0 where
  pub refresh_token : String
  -- `undefined` where the request has no such header
  pub user_agent : Option String
  pub ip : String

pub record ForgotPasswordBody : Type 0 where
  pub email : String
  pub code : String
  pub new_password : String
  pub confirm_new_password : String

pub record RegisterProviderBody : Type 0 where
  pub account : RegisterBody
  pub open account use *
  pub tax_id : String
  pub company_type : CompanyType
  pub industry : Option String
  pub address : String
  pub description : Option String

pub record Tokens : Type 0 where
  pub access_token : String
  pub refresh_token : String
