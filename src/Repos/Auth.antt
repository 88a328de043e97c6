-- ===== src/Repos/Auth.antt =====
-- apps/auth/src/auth.repo.ts. What a query includes of a related table is a query on that table.
use capstone_home_care_be_mi.Common.{
  ℕ, String, Bool, false, not, ◌&&◌, ◌||◌, Option, some, none, List, map, any, all, true, ◌==◌,
  ◌===◌, is_some,
}
use capstone_home_care_be_mi.Data.{
  RoleRef, User, NewUser, Profile, Device, NewDevice, RefreshToken, NewRefreshToken,
  VerificationCode, NewVerificationCode, CodeType, same_type, Role, NewServiceProvider,
}
use capstone_home_care_be_mi.Platform.{Platform}
use capstone_home_care_be_mi.World.{World, Action, pure, call, write, promise_all, ◌>>=◌, ◌>>◌}

-- A user with the roles, the provider id and the provider id of the staff record that belong to it.
pub record UserIncludeRole : Type 0 where
  pub user : User
  pub open user use *
  pub roles : List RoleRef
  pub service_provider : Option ℕ
  pub staff : Option ℕ

-- A refresh token with the roles of its user.
pub record TokenIncludeUser : Type 0 where
  pub row : RefreshToken
  pub open row use *
  pub roles : List RoleRef

-- The fields of `updateDevice` that the callers set. An agent that is `undefined` is not written.
pub data DeviceUpdate : Type 0 where
  from_client : String → Option String → DeviceUpdate
  deactivate : DeviceUpdate

abbrev pub role_ref : Role → RoleRef
role_ref r = record { id = r.id; name = r.name }

-- `email_code_type: { email, type, code }`
abbrev pub where_code : String → CodeType → String → VerificationCode → Bool
where_code email type code c = c.email === email && same_type c.type type && c.code === code

-- `lastActive @updatedAt`: Prisma writes the time of every update there.
abbrev pub mark_device : DeviceUpdate → ℕ → Device → Device
mark_device (from_client ip none) now d = record d { ip = ip; last_active = now }
mark_device (from_client ip (some user_agent)) now d = record d {
  ip = ip;
  user_agent = user_agent;
  last_active = now;
}
mark_device deactivate now d = record d { is_active = false; last_active = now }

-- Whether the rows that a new row refers to are stored.
abbrev pub has_user : ℕ → World → Bool
has_user id w = any (λ u. u.id == id) w.users

abbrev pub has_device : ℕ → World → Bool
has_device id w = any (λ d. d.id == id) w.devices

abbrev pub has_roles : List ℕ → World → Bool
has_roles ids w = all (λ id. any (λ r. r.id == id) w.roles) ids

module _ ⦃p : Platform⦄ where
  unfoldable pub find_user : (User → Bool) → Action (Option User)
  find_user test w = call (λ t. p.users.find t test w.users) w

  unfoldable pub insert_user : NewUser → Action User
  insert_user user =
      write (λ w rows. record w { users = rows })
        (λ w. p.users.create w.tick (has_roles user.role_ids w) user w.users)

  unfoldable pub insert_profile : ℕ → Action Profile
  insert_profile user_id =
      write (λ w rows. record w { profiles = rows })
        (λ w. p.profiles.create w.tick (has_user user_id w) user_id w.profiles)

  -- `include: { roles: true }`
  unfoldable pub include_roles : User → Action (List RoleRef)
  include_roles u w =
      (do
        found ← call (λ t. p.roles.find_many t (λ r. any (λ i. i == r.id) u.role_ids) w.roles)
        pure (map role_ref found))
        w

  -- `serviceProvider: { select: { id: true } }`
  unfoldable pub include_provider : User → Action (Option ℕ)
  include_provider u w =
      (do
        found ← call (λ t. p.providers.find t (λ s. s.user_id == u.id) w.providers)
        pure (elim found [ none ↦ none | some s ↦ some s.id ]))
        w

  -- `staff: { select: { providerId: true } }`
  unfoldable pub include_staff : User → Action (Option ℕ)
  include_staff u w =
      (do
        found ← call (λ t. p.staff.find t (λ s. s.user_id == u.id) w.staff)
        pure (elim found [ none ↦ none | some s ↦ some s.provider_id ]))
        w

  unfoldable pub include_all : User → Action UserIncludeRole
  unfolding include_roles include_provider include_staff
  include_all u = do
    roles ← include_roles u
    provider ← include_provider u
    staff ← include_staff u
    pure (record { user = u; roles = roles; service_provider = provider; staff = staff })

  -- The source omits `password` and `totpSecret` from the row that it returns.
  unfoldable pub create_user : NewUser → Action User
  unfolding insert_user insert_profile
  create_user user = do user_raw ← insert_user user; insert_profile user_raw.id; pure user_raw

  unfoldable pub create_user_include_role : NewUser → Action UserIncludeRole
  unfolding insert_user include_all
  create_user_include_role user = do created ← insert_user user; include_all created

  unfoldable pub create_verification_code : NewVerificationCode → Action VerificationCode
  create_verification_code payload = do
    write (λ w rows. record w { codes = rows })
        (λ w.
          p.codes.delete_many w.tick
            (λ c. c.email === payload.email && same_type c.type payload.type) w.codes)
    write (λ w rows. record w { codes = rows }) (λ w. p.codes.create w.tick true payload w.codes)

  unfoldable pub find_unique_verification_code :
      String → CodeType → String → Action (Option VerificationCode)
  find_unique_verification_code email type code w =
      call (λ t. p.codes.find t (where_code email type code) w.codes) w

  unfoldable pub create_refresh_token : NewRefreshToken → Action RefreshToken
  create_refresh_token token =
      write (λ w rows. record w { tokens = rows })
        (λ w.
          p.tokens.create w.tick (has_user token.user_id w && has_device token.device_id w) token
            w.tokens)

  unfoldable pub create_device : NewDevice → Action Device
  create_device device =
      write (λ w rows. record w { devices = rows })
        (λ w. p.devices.create w.tick (has_user device.user_id w) device w.devices)

  unfoldable pub update_device : ℕ → DeviceUpdate → Action Device
  update_device id update =
      write (λ w rows. record w { devices = rows })
        (λ w.
          p.devices.update w.tick (λ d. d.id == id) (mark_device update (p.clock w.tick)) w.devices)

  unfoldable pub delete_refresh_token : String → Action RefreshToken
  delete_refresh_token token =
      write (λ w rows. record w { tokens = rows })
        (λ w. p.tokens.delete w.tick (λ r. r.token === token) w.tokens)

  unfoldable pub delete_verification_code : String → CodeType → String → Action VerificationCode
  delete_verification_code email type code =
      write (λ w rows. record w { codes = rows })
        (λ w. p.codes.delete w.tick (where_code email type code) w.codes)

  -- The user of that email address that is not deleted.
  unfoldable pub find_unique_user_include_role : String → Action (Option UserIncludeRole)
  unfolding find_user include_all
  find_unique_user_include_role email = do
    found ← find_user (λ u. u.email === email && not (is_some u.deleted_at))
    elim found [ none ↦ pure none | some u ↦ do full ← include_all u; pure (some full) ]

  -- `users.find` below follows the relation from the token to its user.
  unfoldable pub find_unique_refresh_token_include_user_role :
      String → Action (Option TokenIncludeUser)
  unfolding find_user include_roles
  find_unique_refresh_token_include_user_role token w =
      (do
        found ← call (λ t. p.tokens.find t (λ r. r.token === token) w.tokens)
        elim found [
          | none ↦ pure none
          | some r ↦ do
            owner ← find_user (λ u. u.id == r.user_id)
            elim owner [
              | none ↦ pure none
              | some u ↦ do roles ← include_roles u; pure (some (record { row = r; roles = roles }))
            ]
        ])
        w

  unfoldable pub find_unique_provider_include_name_and_tax_id : String → String → Action Bool
  unfolding find_user
  find_unique_provider_include_name_and_tax_id name tax_id = do
    pair ←
        promise_all p (λ w. call (λ t. p.providers.find t (λ s. s.tax_id === tax_id) w.providers) w)
          (find_user (λ u. u.name === name))
    pure (is_some pair.0 || is_some pair.1)

  unfoldable pub create_service_provider : NewServiceProvider → Action (Unit {0})
  create_service_provider body = do
    write (λ w rows. record w { providers = rows })
        (λ w. p.providers.create w.tick (has_user body.user_id w) body w.providers)
    pure tt
