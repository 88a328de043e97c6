-- ===== src/Tests/Sample.antt =====
-- A platform in memory: a clock that stands still, tokens that are told apart by the call that made
-- them, hashes that are the passwords, and a mail service that answers.
use capstone_home_care_be_mi.Common.{
  ℕ, suc, zero, ◌≡◌, refl, String, push, Bool, true, false, not, ◌&&◌, Option, none, some, [], ◌∷◌,
  keep, Memᴰ, ◌===◌, is_some, eq_iff, arith, if◌then◌else◌,
}
use Prim.Native.Char.{char}
use capstone_home_care_be_mi.Data.{
  User, NewUser, inactive, Profile, Device, NewDevice, RefreshToken, NewRefreshToken,
  VerificationCode, NewVerificationCode, Role, Permission, get, ServiceProvider, NewServiceProvider,
  Staff, Category,
}
use capstone_home_care_be_mi.Errors.{ok}
use capstone_home_care_be_mi.Platform.{
  Platform, MadeUser, user_clash, MadeProfile, profile_clash, MadeDevice, device_clash, MadeToken,
  token_clash, MadeCode, code_clash, MadeProvider, provider_clash, AccessTokenPayload,
}
use capstone_home_care_be_mi.Platform.Sound.{
  SoundTables, LiveTables, SoundReads, SelectsRoles, Recognises, InRange,
}
use capstone_home_care_be_mi.Tests.Memory.{memory, memory-IsSound, memory-IsLive, mem_of_keep}

abbrev make_user : ℕ → NewUser → User
make_user i n = record {
  id = i;
  email = n.email;
  phone = n.phone;
  password = n.password;
  name = n.name;
  avatar = n.avatar;
  status = inactive;
  totp_secret = none;
  role_ids = n.role_ids;
  deleted_at = none;
}

abbrev make_profile : ℕ → ℕ → Profile
make_profile i n = record { id = i; user_id = n }

abbrev given {ℓ} : {A : Type ℓ} → Option A → A → A
given none a = a
given (some a) _ = a

abbrev make_device : ℕ → NewDevice → Device
make_device i n = record {
  id = i;
  user_id = n.user_id;
  user_agent = n.user_agent;
  ip = n.ip;
  last_active = given n.last_active 0;
  is_active = given n.is_active true;
}

abbrev make_token : ℕ → NewRefreshToken → RefreshToken
make_token i n = record {
  id = i;
  token = n.token;
  user_id = n.user_id;
  device_id = n.device_id;
  expires_at = n.expires_at;
}

abbrev make_code : ℕ → NewVerificationCode → VerificationCode
make_code i n = record {
  id = i;
  email = n.email;
  code = n.code;
  type = n.type;
  expires_at = n.expires_at;
}

abbrev make_provider : ℕ → NewServiceProvider → ServiceProvider
make_provider i n = record {
  id = i;
  user_id = n.user_id;
  tax_id = n.tax_id;
  company_type = n.company_type;
  industry = none;
  description = n.description;
  address = n.address;
  verification_status = n.verification_status;
  verified_at = none;
  verified_by_id = none;
}

abbrev make_role : ℕ → String → Role
make_role i n = record { id = i; name = n; deleted_at = none; permission_ids = [] }

abbrev make_permission : ℕ → String → Permission
make_permission i n = record { id = i; path = n; method = get; deleted_at = none }

abbrev make_staff : ℕ → ℕ → Staff
make_staff i n = record { id = i; user_id = n; provider_id = 1 }

abbrev make_category : ℕ → String → Category
make_category i n = record { id = i; name = n }

-- A text of `n` stars.
abbrev stars : ℕ → String
stars zero = ""
stars (suc n) = let shorter = stars n in push shorter (char b'*' tt)

abbrev pub payload : AccessTokenPayload
payload = record {
  payload = record {
    user_id = 1;
    device_id = 1;
    provider_id = some 1;
    staff_provider_id = none;
    roles = record { id = 1; name = "CUSTOMER" } ∷ [];
  };
  exp = 9;
  iat = 1;
}

abbrev pub alive : String → Role → Bool
alive name r = r.name === name && not (is_some r.deleted_at)

abbrev pub sample : Platform
sample = record {
  users = memory make_user user_clash (λ u. u.id);
  profiles = memory make_profile profile_clash (λ x. x.id);
  devices = memory make_device device_clash (λ d. d.id);
  tokens = memory make_token token_clash (λ r. r.id);
  codes = memory make_code code_clash (λ c. c.id);
  roles = memory make_role (λ n r. r.name === n) (λ r. r.id);
  permissions = memory make_permission (λ n x. false) (λ x. x.id);
  providers = memory make_provider provider_clash (λ s. s.id);
  staff = memory make_staff (λ n x. false) (λ x. x.id);
  categories = memory make_category (λ n x. false) (λ x. x.id);
  select_role = λ t name roles. ok (keep (alive name) roles);
  second_first = λ t. false;
  second_apart = λ t. false;
  clock = λ t. 100;
  random_int = λ t lo hi. lo;
  uuid = stars;
  hash = λ t value rounds. ok value;
  compare = λ t value hashed. ok (value === hashed);
  sign = λ t d uuid options. uuid;
  verify = λ t token secret. ok payload;
  new_secret = stars;
  totp_uri = λ options. options.label;
  totp_validate = λ t options token window. if token === "123456" then some 0 else none;
  send_email = λ t e. ok none;
  config = λ name. "secret";
  ms = λ s. 60;
}

pub sample-SoundTables : SoundTables sample
sample-SoundTables = record {
  users =
      memory-IsSound make_user user_clash (λ u. u.id) MadeUser
        (λ i n. record {
          email = refl;
          name = refl;
          password = refl;
          phone = refl;
          avatar = refl;
          role_ids = refl;
          totp_secret = refl;
          status = refl;
          deleted_at = refl;
        })
        (λ i n. refl);
  profiles =
      memory-IsSound make_profile profile_clash (λ x. x.id) MadeProfile (λ i n. refl) (λ i n. refl);
  devices =
      memory-IsSound make_device device_clash (λ d. d.id) MadeDevice
        (λ i n. record {
          user_id = refl;
          user_agent = refl;
          ip = refl;
          active_given = λ b e. ground arith;
          active_default = λ e. ground arith;
          last_active = λ t e. ground arith;
        })
        (λ i n. refl);
  tokens =
      memory-IsSound make_token token_clash (λ r. r.id) MadeToken
        (λ i n. record { token = refl; user_id = refl; device_id = refl; expires_at = refl })
        (λ i n. refl);
  codes =
      memory-IsSound make_code code_clash (λ c. c.id) MadeCode
        (λ i n. record { email = refl; code = refl; type = refl; expires_at = refl }) (λ i n. refl);
  providers =
      memory-IsSound make_provider provider_clash (λ s. s.id) MadeProvider
        (λ i n. record {
          user_id = refl;
          tax_id = refl;
          company_type = refl;
          description = refl;
          address = refl;
          verification_status = refl;
          verified_at = refl;
          verified_by_id = refl;
        })
        (λ i n. refl);
}

pub sample-LiveTables : LiveTables sample
sample-LiveTables = record {
  users = memory-IsLive make_user user_clash (λ u. u.id);
  profiles = memory-IsLive make_profile profile_clash (λ x. x.id);
  devices = memory-IsLive make_device device_clash (λ d. d.id);
  tokens = memory-IsLive make_token token_clash (λ r. r.id);
  codes = memory-IsLive make_code code_clash (λ c. c.id);
  providers = memory-IsLive make_provider provider_clash (λ s. s.id);
}

pub sample-SoundReads : SoundReads sample
sample-SoundReads = record {
  roles = λ t test rows found h r m.
      (let same : keep test rows ≡ found = ground arith in
        let (mem, hit) = mem_of_keep test rows (rw (← same) at m) in (hit, mem));
  permissions = λ t test rows found h r m.
      (let same : keep test rows ≡ found = ground arith in
        let (mem, hit) = mem_of_keep test rows (rw (← same) at m) in (hit, mem));
}

pub sample-SelectsRoles : SelectsRoles sample
sample-SelectsRoles t name rows r rest h =
    let same : keep (alive name) rows ≡ r ∷ rest = ground arith in
    let kept : Memᴰ r (keep (alive name) rows) = rw same (Memᴰ.head refl) in
    let (mem, hit) = mem_of_keep (alive name) rows kept in
    (ground (arith, eq_iff r.name name), mem, ground arith)

pub sample-Recognises : Recognises sample
sample-Recognises t u value rounds hashed h = ground (arith, eq_iff value hashed)

pub sample-InRange : InRange sample
sample-InRange t lo hi h = (omega arith, h)
