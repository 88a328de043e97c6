-- ===== src/Data.antt =====
-- The rows of the tables and the enumerations: libs/common/src/models, libs/common/src/constants
-- and the record types of libs/common/src/request-response-type/auth/auth.model.ts. A relation is
-- kept as the ids that it connects. Times are milliseconds.
use capstone_home_care_be_mi.Common.{ℕ, String, Bool, Option, List}

pub data UserStatus : Type 0 where
  active inactive blocked : UserStatus

pub data CodeType : Type 0 where
  register forgot_password login disable_2fa : CodeType

-- Equality of two kinds of code, as the database compares them.
abbrev pub same_type : CodeType → CodeType → Bool
same_type register register = Bool.true
same_type forgot_password forgot_password = Bool.true
same_type login login = Bool.true
same_type disable_2fa disable_2fa = Bool.true
same_type _ _ = Bool.false

pub data HttpMethod : Type 0 where
  get post put delete patch options head : HttpMethod

abbrev pub same_method : HttpMethod → HttpMethod → Bool
same_method get get = Bool.true
same_method post post = Bool.true
same_method put put = Bool.true
same_method delete delete = Bool.true
same_method patch patch = Bool.true
same_method options options = Bool.true
same_method head head = Bool.true
same_method _ _ = Bool.false

pub data CompanyType : Type 0 where
  sole_proprietorship limited_liability joint_stock partnership other : CompanyType

pub data VerificationStatus : Type 0 where
  pending verified rejected : VerificationStatus

abbrev pub same_status : VerificationStatus → VerificationStatus → Bool
same_status pending pending = Bool.true
same_status verified verified = Bool.true
same_status rejected rejected = Bool.true
same_status _ _ = Bool.false

pub data RoleName : Type 0 where
  customer service_provider staff admin : RoleName

abbrev pub role_text : RoleName → String
role_text customer = "CUSTOMER"
role_text service_provider = "SERVICE PROVIDER"
role_text staff = "STAFF"
role_text admin = "ADMIN"

-- `{ id, name }` of a role, as users and tokens carry it.
pub record RoleRef : Type 0 where
  pub id : ℕ
  pub name : String

pub record User : Type 0 where
  pub id : ℕ
  pub email : String
  pub phone : String
  pub password : String
  pub name : String
  pub avatar : Option String
  pub status : UserStatus
  pub totp_secret : Option String
  pub role_ids : List ℕ
  pub deleted_at : Option ℕ

-- The `data` of a `user.create`; `role_ids` are those that it connects.
pub record NewUser : Type 0 where
  pub email : String
  pub name : String
  pub password : String
  pub phone : String
  pub avatar : Option String
  pub role_ids : List ℕ

pub record Profile : Type 0 where
  pub id : ℕ
  pub user_id : ℕ

pub record Device : Type 0 where
  pub id : ℕ
  pub user_id : ℕ
  pub user_agent : String
  pub ip : String
  pub last_active : ℕ
  pub is_active : Bool

-- Fields left out take the defaults of the schema.
pub record NewDevice : Type 0 where
  pub user_id : ℕ
  pub user_agent : String
  pub ip : String
  pub is_active : Option Bool
  pub last_active : Option ℕ

pub record RefreshToken : Type 0 where
  pub id : ℕ
  pub token : String
  pub user_id : ℕ
  pub device_id : ℕ
  pub expires_at : ℕ

pub record NewRefreshToken : Type 0 where
  pub token : String
  pub user_id : ℕ
  pub device_id : ℕ
  pub expires_at : ℕ

pub record VerificationCode : Type 0 where
  pub id : ℕ
  pub email : String
  pub code : String
  pub type : CodeType
  pub expires_at : ℕ

pub record NewVerificationCode : Type 0 where
  pub email : String
  pub code : String
  pub type : CodeType
  pub expires_at : ℕ

pub record Role : Type 0 where
  pub id : ℕ
  pub name : String
  pub deleted_at : Option ℕ
  pub permission_ids : List ℕ

pub record Permission : Type 0 where
  pub id : ℕ
  pub path : String
  pub method : HttpMethod
  pub deleted_at : Option ℕ

pub record ServiceProvider : Type 0 where
  pub id : ℕ
  pub user_id : ℕ
  pub tax_id : String
  pub company_type : CompanyType
  pub industry : Option String
  pub description : Option String
  pub address : String
  pub verification_status : VerificationStatus
  pub verified_at : Option ℕ
  pub verified_by_id : Option ℕ

pub record NewServiceProvider : Type 0 where
  pub address : String
  pub tax_id : String
  pub company_type : CompanyType
  pub description : Option String
  pub user_id : ℕ
  pub verification_status : VerificationStatus

pub record Category : Type 0 where
  pub id : ℕ
  pub name : String

pub record Staff : Type 0 where
  pub id : ℕ
  pub user_id : ℕ
  pub provider_id : ℕ
