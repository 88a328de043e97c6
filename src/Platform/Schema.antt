-- ===== src/Platform/Schema.antt =====
-- The unique keys, the lengths of columns and the defaults of prisma/schema.prisma: which rows clash with the data of a
-- `create`, and which row a `create` makes of its data.
use capstone_home_care_be_mi.Common.{
  ◌≡◌, Bool, true, false, ◌&&◌, none, some, ◌==◌, ◌===◌, ◌≤◌, utf16_length, Option,
}
use capstone_home_care_be_mi.Data.{
  User, NewUser, inactive, Profile, Device, NewDevice, RefreshToken, NewRefreshToken,
  VerificationCode, NewVerificationCode, same_type, ServiceProvider, NewServiceProvider,
}
use capstone_home_care_be_mi.Common.{ℕ}

abbrev given : {A : Type 0} → Option A → A → A
given none a = a
given (some a) _ = a

-- `email @unique`
abbrev pub user_clash : NewUser → User → Bool
user_clash n u = u.email === n.email

-- `name` VarChar(500), `phone` VarChar(50), `avatar` VarChar(1000)
abbrev pub UserFits : NewUser → Type 0
UserFits n =
    (utf16_length n.name ≤ 500)
    × (utf16_length n.phone ≤ 50)
    × (utf16_length (given n.avatar "") ≤ 1000)

-- no column with a bound
abbrev pub AnyFits : {New : Type 0} → New → Type 0
AnyFits n = Unit {0}

pub record MadeUser (n : NewUser) (u : User) : Type 0 where
  pub email : u.email ≡ n.email
  pub name : u.name ≡ n.name
  pub password : u.password ≡ n.password
  pub phone : u.phone ≡ n.phone
  pub avatar : u.avatar ≡ n.avatar
  pub role_ids : u.role_ids ≡ n.role_ids
  pub totp_secret : u.totp_secret ≡ none
  pub status : u.status ≡ inactive
  pub deleted_at : u.deleted_at ≡ none

-- `userId @unique`; the data of a profile is the user's id alone
abbrev pub profile_clash : ℕ → Profile → Bool
profile_clash n x = x.user_id == n

abbrev pub MadeProfile : ℕ → Profile → Type 0
MadeProfile n x = x.user_id ≡ n

abbrev pub device_clash : NewDevice → Device → Bool
device_clash n d = false

pub record MadeDevice (n : NewDevice) (d : Device) : Type 0 where
  pub user_id : d.user_id ≡ n.user_id
  pub user_agent : d.user_agent ≡ n.user_agent
  pub ip : d.ip ≡ n.ip
  pub active_given : (b : Bool) → n.is_active ≡ some b → d.is_active ≡ b
  pub active_default : n.is_active ≡ none → d.is_active ≡ true
  pub last_active : (t : ℕ) → n.last_active ≡ some t → d.last_active ≡ t

-- `token @unique`
abbrev pub token_clash : NewRefreshToken → RefreshToken → Bool
token_clash n r = r.token === n.token

pub record MadeToken (n : NewRefreshToken) (r : RefreshToken) : Type 0 where
  pub token : r.token ≡ n.token
  pub user_id : r.user_id ≡ n.user_id
  pub device_id : r.device_id ≡ n.device_id
  pub expires_at : r.expires_at ≡ n.expires_at

-- `@@unique([email, code, type])`
abbrev pub code_clash : NewVerificationCode → VerificationCode → Bool
code_clash n c = c.email === n.email && same_type c.type n.type && c.code === n.code

-- `email` VarChar(500), `code` VarChar(50)
abbrev pub CodeFits : NewVerificationCode → Type 0
CodeFits n = (utf16_length n.email ≤ 500) × (utf16_length n.code ≤ 50)

pub record MadeCode (n : NewVerificationCode) (c : VerificationCode) : Type 0 where
  pub email : c.email ≡ n.email
  pub code : c.code ≡ n.code
  pub type : c.type ≡ n.type
  pub expires_at : c.expires_at ≡ n.expires_at

-- `userId @unique`
abbrev pub provider_clash : NewServiceProvider → ServiceProvider → Bool
provider_clash n s = s.user_id == n.user_id

-- `taxId` VarChar(100)
abbrev pub ProviderFits : NewServiceProvider → Type 0
ProviderFits n = utf16_length n.tax_id ≤ 100

pub record MadeProvider (n : NewServiceProvider) (s : ServiceProvider) : Type 0 where
  pub user_id : s.user_id ≡ n.user_id
  pub tax_id : s.tax_id ≡ n.tax_id
  pub company_type : s.company_type ≡ n.company_type
  pub description : s.description ≡ n.description
  pub address : s.address ≡ n.address
  pub verification_status : s.verification_status ≡ n.verification_status
  pub verified_at : s.verified_at ≡ none
  pub verified_by_id : s.verified_by_id ≡ none
