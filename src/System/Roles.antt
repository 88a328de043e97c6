-- ===== src/System/Roles.antt =====
-- Consistent tables, and the getters of role ids of shared-role.repo.ts.
use capstone_home_care_be_mi.Common.{arith, ap, ◌≡◌, ℕ, Option, some, none, non_zero}
use capstone_home_care_be_mi.Data.{
  Role, RoleName, RoleRef, role_text, customer, service_provider, admin, staff,
}
use capstone_home_care_be_mi.Errors.{Result, ok}
use capstone_home_care_be_mi.Platform.{Platform}
use capstone_home_care_be_mi.World.{World, pure, ◌>>=◌, ◌>>◌}
use capstone_home_care_be_mi.World.Keeps.{keeps-bind}
use capstone_home_care_be_mi.Repos.{
  get_role, remembered_role, get_admin_role_id, get_staff_role_id, get_customer_role_id,
  get_service_provider_role_id,
}
use capstone_home_care_be_mi.System.Consistent.{IsConsistent, HasRole, HasRole-mem}
use capstone_home_care_be_mi.Platform.Sound.{SelectsRoles}
use capstone_home_care_be_mi.Repos.RoleLaws.{get_role-ok}
use capstone_home_care_be_mi.System.Reads.{get_role-IsConsistent}

module _ ⦃p : Platform⦄ (selects : SelectsRoles p) (w : World) (i : IsConsistent w) where
  -- The role that was just read is one of its name.
  found_role :
      (name : RoleName) (role : Role)
      → get_role name w ≡ (ok role, (get_role name w).1)
      → (id : ℕ) → some role.id ≡ some id
      → HasRole (get_role name w).1.roles name id
  found_role name role e id same =
      let (named, mem, alive, q) = get_role-ok selects w name role e in
      let roles : (get_role name w).1.roles ≡ w.roles = ap (λ (v : World). v.roles) q in
      rw roles (HasRole-mem w.roles name role id named mem alive (ground arith))

  remembered_role-IsConsistent :
      (name : RoleName) (known : Option ℕ) (put : ℕ → World → World)
      → ((v : World) (id : ℕ)
          → IsConsistent v
          → ((x : ℕ) → some id ≡ some x → HasRole v.roles name x)
          → IsConsistent (put id v))
      → IsConsistent (remembered_role name known put w).1
  unfolding remembered_role
  remembered_role-IsConsistent name known put keeps = go (non_zero known)
    where
      go :
          (o : Option ℕ)
          → IsConsistent
              ((elim o as (λ _. Result RoleRef × World) [
                | some id ↦ pure (record { id = id; name = role_text name }) w
                | none ↦
                    (do
                      role ← get_role name
                      (λ v. (ok tt, put role.id v))
                      pure (record { id = role.id; name = role_text name }))
                      w
              ])).1
      go (some id) = i
      go none =
          let kept = get_role-IsConsistent w i name in
          keeps-bind IsConsistent (get_role name w) _ kept
            λ role e. keeps (get_role name w).1 role.id kept (found_role name role e)

  pub get_customer_role_id-IsConsistent : IsConsistent (get_customer_role_id w).1
  unfolding get_customer_role_id
  get_customer_role_id-IsConsistent =
      remembered_role-IsConsistent customer w.customer_role_id
        (λ id v. record v { customer_role_id = some id })
        λ v id j has.
          (let k = j.remembers in
            record {
              at = j.at;
              remembers = record {
                customer_role = has;
                service_provider_role = k.service_provider_role;
                admin_role = k.admin_role;
                staff_role = k.staff_role;
              };
            })

  pub get_service_provider_role_id-IsConsistent : IsConsistent (get_service_provider_role_id w).1
  unfolding get_service_provider_role_id
  get_service_provider_role_id-IsConsistent =
      remembered_role-IsConsistent service_provider w.service_provider_role_id
        (λ id v. record v { service_provider_role_id = some id })
        λ v id j has.
          (let k = j.remembers in
            record {
              at = j.at;
              remembers = record {
                customer_role = k.customer_role;
                service_provider_role = has;
                admin_role = k.admin_role;
                staff_role = k.staff_role;
              };
            })

  pub get_admin_role_id-IsConsistent : IsConsistent (get_admin_role_id w).1
  unfolding get_admin_role_id
  get_admin_role_id-IsConsistent =
      remembered_role-IsConsistent admin w.admin_role_id
        (λ id v. record v { admin_role_id = some id })
        λ v id j has.
          (let k = j.remembers in
            record {
              at = j.at;
              remembers = record {
                customer_role = k.customer_role;
                service_provider_role = k.service_provider_role;
                admin_role = has;
                staff_role = k.staff_role;
              };
            })

  pub get_staff_role_id-IsConsistent : IsConsistent (get_staff_role_id w).1
  unfolding get_staff_role_id
  get_staff_role_id-IsConsistent =
      remembered_role-IsConsistent staff w.staff_role_id
        (λ id v. record v { staff_role_id = some id })
        λ v id j has.
          (let k = j.remembers in
            record {
              at = j.at;
              remembers = record {
                customer_role = k.customer_role;
                service_provider_role = k.service_provider_role;
                admin_role = k.admin_role;
                staff_role = has;
              };
            })
