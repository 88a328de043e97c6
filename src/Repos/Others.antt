-- ===== src/Repos/Others.antt =====
-- The methods of libs/common/src/repositories that no service calls: of shared-user.repo.ts,
-- share-provider.repo.ts, shared-staff.repo.ts and shared-category.repo.ts.
use capstone_home_care_be_mi.Common.{
  ℕ, ◌+◌, ◌≡◌, String, Bool, true, not, ◌&&◌, Option, some, none, List, [], ◌∷◌, map, any, Memᴰ,
  All, ◌==◌, ◌===◌, is_some, arith,
}
use capstone_home_care_be_mi.Data.{User, UserStatus, Role, Permission, ServiceProvider, Staff}
use capstone_home_care_be_mi.Errors.{ok}
use capstone_home_care_be_mi.Platform.{Platform}
use capstone_home_care_be_mi.Platform.Sound.{SoundReads}
use capstone_home_care_be_mi.World.{World, Action, pure, call, write, ◌>>=◌}
use capstone_home_care_be_mi.World.Laws.{step-ok}

-- `WhereUniqueUserType`
pub data WhereUniqueUser : Type 0 where
  by_id : ℕ → WhereUniqueUser
  by_email : String → WhereUniqueUser

-- `{ ...where, deletedAt: null }`
abbrev pub where_user : WhereUniqueUser → User → Bool
where_user (by_id id) u = u.id == id && not (is_some u.deleted_at)
where_user (by_email email) u = u.email === email && not (is_some u.deleted_at)

-- A role with the permissions of it that are not deleted.
pub record RoleIncludePermissions : Type 0 where
  pub role : Role
  pub open role use *
  pub permissions : List Permission

-- A user without `password` and `totpSecret`.
pub record UserIncludeRolePermissions : Type 0 where
  pub id : ℕ
  pub email : String
  pub phone : String
  pub name : String
  pub avatar : Option String
  pub status : UserStatus
  pub deleted_at : Option ℕ
  pub roles : List RoleIncludePermissions

abbrev pub live_permission_of : Role → Permission → Bool
live_permission_of role x = any (λ i. i == x.id) role.permission_ids && not (is_some x.deleted_at)

module _ ⦃p : Platform⦄ where
  unfoldable pub include_live_permissions : List Role → Action (List RoleIncludePermissions)
  include_live_permissions [] w = (ok [], w)
  include_live_permissions (role ∷ roles) w =
      (do
        here ← λ v. call (λ t. p.permissions.find_many t (live_permission_of role) v.permissions) v
        more ← include_live_permissions roles
        pure (record { role = role; permissions = here } ∷ more))
        w

  unfoldable pub find_unique_include_role_permissions :
      WhereUniqueUser → Action (Option UserIncludeRolePermissions)
  find_unique_include_role_permissions where_unique w =
      (do
        found ← call (λ t. p.users.find t (where_user where_unique) w.users)
        elim found [
          | none ↦ pure none
          | some u ↦ do
            roles ← λ v.
                call (λ t. p.roles.find_many t (λ r. any (λ i. i == r.id) u.role_ids) v.roles) v
            full ← include_live_permissions roles
            pure (
                some (record {
                  id = u.id;
                  email = u.email;
                  phone = u.phone;
                  name = u.name;
                  avatar = u.avatar;
                  status = u.status;
                  deleted_at = u.deleted_at;
                  roles = full;
                }))
        ])
        w

  -- `update` of `SharedProviderRepository`: the whole row is written
  unfoldable pub update_provider : ServiceProvider → Action ServiceProvider
  update_provider body =
      write (λ w rows. record w { providers = rows })
        (λ w. p.providers.update w.tick (λ s. s.id == body.id) (λ s. body) w.providers)

  unfoldable pub find_unique_staff_and_belong_to_provider : ℕ → ℕ → Action (Option Staff)
  find_unique_staff_and_belong_to_provider id provider_id w =
      call (λ t. p.staff.find t (λ s. s.id == id && s.provider_id == provider_id) w.staff) w

  -- `findUnique` of `SharedCategoryRepository`: the ids of the list that are stored
  unfoldable pub find_unique_categories : List ℕ → Action (List ℕ)
  find_unique_categories category_ids w =
      (do
        found ←
            call
              (λ t. p.categories.find_many t (λ c. any (λ i. i == c.id) category_ids) w.categories)
        pure (map (λ c. c.id) found))
        w

-- Permissions of the role, none deleted.
abbrev pub IsLivePermission : World → Role → Permission → Type 0
IsLivePermission w role x =
    Memᴰ x w.permissions × (any (λ i. i == x.id) role.permission_ids ≡ true) × (x.deleted_at ≡ none)

module _ ⦃p : Platform⦄ (s : SoundReads p) where
  include_live_permissions-IsLivePermission :
      (roles : List Role) (w : World) (found : List RoleIncludePermissions) {w' : World}
      → include_live_permissions roles w ≡ (ok found, w')
      → All (λ r. (x : Permission) → Memᴰ x r.permissions → IsLivePermission w r.role x) found
  unfolding include_live_permissions
  include_live_permissions-IsLivePermission [] w found h =
      let nothing : [] ≡ found = ground arith in rw (← nothing) tt
  include_live_permissions-IsLivePermission (role ∷ roles) w found h =
      let (here, e₁, h₁) =
        step-ok
          (
            p.permissions.find_many w.tick (live_permission_of role) w.permissions,
            record w { tick = w.tick + 1 },
          )
          h in
      let (more, e₂, h₂) = step-ok (include_live_permissions roles _) h₁ in
      let same : record { role = role; permissions = here } ∷ more ≡ found = ground arith in
      let rest = include_live_permissions-IsLivePermission roles _ more e₂ in
      rw (← same) (
        (λ x m.
            let (hit, mem) =
              s.permissions w.tick (live_permission_of role) w.permissions here (ground arith) x
                m in
            (mem, ground arith, ground arith)),
        rest,
      )
