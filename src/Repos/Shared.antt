-- ===== src/Repos/Shared.antt =====
-- libs/common/src/repositories: shared-user.repo.ts, shared-role.repo.ts, share-provider.repo.ts.
use capstone_home_care_be_mi.Common.{
  ℕ, String, not, ◌&&◌, Option, some, none, [], ◌∷◌, ◌==◌, ◌===◌, is_some, non_zero,
}
use capstone_home_care_be_mi.Data.{
  RoleRef, User, Role, ServiceProvider, role_text, RoleName, customer, service_provider, admin,
  staff,
}
use capstone_home_care_be_mi.Errors.{failure}
use capstone_home_care_be_mi.Platform.{Platform}
use capstone_home_care_be_mi.World.{World, Action, pure, throw, call, write, ◌>>=◌, ◌>>◌}

-- A write of one of the fields of the repository object.
abbrev remember : (World → World) → Action (Unit {0})
remember f w = (capstone_home_care_be_mi.Errors.ok tt, f w)

abbrev named : ℕ → RoleName → RoleRef
named id name = record { id = id; name = role_text name }

module _ ⦃p : Platform⦄ where
  -- `findUnique({ email })`: the user of that address that is not deleted
  unfoldable pub find_unique_user : String → Action (Option User)
  find_unique_user email w =
      call (λ t. p.users.find t (λ u. u.email === email && not (is_some u.deleted_at)) w.users) w

  -- `update({ id }, { password })`
  unfoldable pub update_password : ℕ → String → Action User
  update_password id hashed =
      write (λ w rows. record w { users = rows })
        (λ w.
          p.users.update w.tick (λ u. u.id == id && not (is_some u.deleted_at))
            (λ u. record u { password = hashed }) w.users)

  unfoldable pub get_role : RoleName → Action Role
  get_role name w =
      (do
        res ← call (λ t. p.select_role t (role_text name) w.roles)
        elim res [ [] ↦ throw (failure "Role not found") | role ∷ _ ↦ pure role ])
        w

  -- A getter of a role id: `known` is the field that remembers it, `put` its assignment.
  unfoldable pub remembered_role : RoleName → Option ℕ → (ℕ → World → World) → Action RoleRef
  remembered_role name known put w = elim (non_zero known) [
    | some id ↦ pure (named id name) w
    | none ↦ (do role ← get_role name; remember (put role.id); pure (named role.id name)) w
  ]

  unfoldable pub get_customer_role_id : Action RoleRef
  get_customer_role_id w =
      remembered_role customer w.customer_role_id (λ id v. record v { customer_role_id = some id })
        w

  unfoldable pub get_service_provider_role_id : Action RoleRef
  get_service_provider_role_id w =
      remembered_role service_provider w.service_provider_role_id
        (λ id v. record v { service_provider_role_id = some id }) w

  unfoldable pub get_admin_role_id : Action RoleRef
  get_admin_role_id w =
      remembered_role admin w.admin_role_id (λ id v. record v { admin_role_id = some id }) w

  unfoldable pub get_staff_role_id : Action RoleRef
  get_staff_role_id w =
      remembered_role staff w.staff_role_id (λ id v. record v { staff_role_id = some id }) w

  -- `findUnique({ id })` of `SharedProviderRepository`
  unfoldable pub find_unique_provider : ℕ → Action (Option ServiceProvider)
  find_unique_provider id w = call (λ t. p.providers.find t (λ s. s.id == id) w.providers) w
