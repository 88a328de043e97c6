-- ===== src/System/Consistent.antt =====
-- What holds of the tables between two requests: the unique keys of prisma/schema.prisma, the
-- relations between the tables, and one code at most for each address and kind.
use capstone_home_care_be_mi.Common.{
  ◌≡◌, false, Option, some, not, is_some, arith, eq_iff, Memᴰ, Has-mem, ℕ, Bool, ◌&&◌, List, ◌==◌,
  ◌===◌, All, Unique, Has,
}
use capstone_home_care_be_mi.Data.{
  User, Profile, Device, RefreshToken, VerificationCode, ServiceProvider, same_type, Role, RoleName,
  role_text, customer, service_provider, admin, staff,
}
use capstone_home_care_be_mi.World.{World}

abbrev pub same_email : User → User → Bool
same_email a b = a.email === b.email

abbrev pub same_user_id : User → User → Bool
same_user_id a b = a.id == b.id

abbrev pub same_device_id : Device → Device → Bool
same_device_id a b = a.id == b.id

abbrev pub same_token : RefreshToken → RefreshToken → Bool
same_token a b = a.token === b.token

-- Of one address and one kind, whatever the code.
abbrev pub same_purpose : VerificationCode → VerificationCode → Bool
same_purpose a b = a.email === b.email && same_type a.type b.type

abbrev pub same_owner : ServiceProvider → ServiceProvider → Bool
same_owner a b = a.user_id == b.user_id

abbrev pub same_profile : Profile → Profile → Bool
same_profile a b = a.user_id == b.user_id

abbrev pub HasUser : List User → ℕ → Type 0
HasUser users id = Has (λ u. u.id == id) users

abbrev pub HasDevice : List Device → ℕ → Type 0
HasDevice devices id = Has (λ d. d.id == id) devices

pub record Consistent (users : List User) (profiles : List Profile) (devices : List Device)
    (tokens : List RefreshToken) (codes : List VerificationCode) (providers : List ServiceProvider)
    : Type 0 where
  pub emails : Unique same_email users
  pub user_ids : Unique same_user_id users
  pub profile_owners : Unique same_profile profiles
  pub profile_users : All (λ x. HasUser users x.user_id) profiles
  pub device_ids : Unique same_device_id devices
  pub token_texts : Unique same_token tokens
  pub token_devices : All (λ r. HasDevice devices r.device_id) tokens
  pub purposes : Unique same_purpose codes
  pub provider_owners : Unique same_owner providers
  pub provider_users : All (λ s. HasUser users s.user_id) providers

-- A role of the name that is not deleted.
abbrev pub HasRole : List Role → RoleName → ℕ → Type 0
HasRole roles name id =
    Has (λ r. r.id == id && (r.name === role_text name && not (is_some r.deleted_at))) roles

pub HasRole-mem :
    (roles : List Role) (name : RoleName) (r : Role) (id : ℕ)
    → r.name ≡ role_text name
    → Memᴰ r roles
    → is_some r.deleted_at ≡ false
    → r.id ≡ id
    → HasRole roles name id
HasRole-mem roles name r id named mem alive same =
    Has-mem (λ x. x.id == id && (x.name === role_text name && not (is_some x.deleted_at))) roles mem
      (ground (arith, named, alive, same, eq_iff r.name (role_text name)))

-- What `SharedRoleRepository` remembers is the id of such a role.
pub record Remembers (roles : List Role)
    (customer_role_id service_provider_role_id admin_role_id staff_role_id : Option ℕ)
    : Type 0 where
  pub customer_role : (id : ℕ) → customer_role_id ≡ some id → HasRole roles customer id
  pub service_provider_role :
      (id : ℕ) → service_provider_role_id ≡ some id → HasRole roles service_provider id
  pub admin_role : (id : ℕ) → admin_role_id ≡ some id → HasRole roles admin id
  pub staff_role : (id : ℕ) → staff_role_id ≡ some id → HasRole roles staff id

pub record IsConsistent (w : World) : Type 0 where
  pub remembers :
      Remembers w.roles w.customer_role_id w.service_provider_role_id w.admin_role_id
        w.staff_role_id
  pub at : Consistent w.users w.profiles w.devices w.tokens w.codes w.providers

-- What no query changes is no part of it.
pub IsConsistent-tick : (w : World) (t : ℕ) → IsConsistent w → IsConsistent (record w { tick = t })
IsConsistent-tick w t i = record { at = i.at; remembers = i.remembers }
