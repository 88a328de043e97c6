-- ===== src/Repos/RoleLaws.antt =====
-- What `SharedRoleRepository` answers: the id of a role that is remembered or in the table.
use capstone_home_care_be_mi.Common.{
  sym, ◌∙◌, ℕ, ◌+◌, ◌≡◌, String, false, Option, List, some, Memᴰ, is_some, arith, ◌⊎◌, inl, inr,
  Option-cases, non_zero,
}
use mathlib.Core.Path.{ap₂}
use capstone_home_care_be_mi.Data.{
  Role, RoleName, RoleRef, customer, service_provider, admin, staff, role_text,
}
use capstone_home_care_be_mi.Errors.{ok}
use capstone_home_care_be_mi.Platform.{Platform}
use capstone_home_care_be_mi.Platform.Sound.{SelectsRoles}
use capstone_home_care_be_mi.World.{World}
use capstone_home_care_be_mi.World.Laws.{step-ok, first-ok}
use capstone_home_care_be_mi.Repos.{
  remembered_role, get_admin_role_id, get_staff_role_id, get_role, get_customer_role_id,
  get_service_provider_role_id,
}

-- The id of a role: one remembered from an earlier call, or that of a role of the name that is not
-- deleted.
abbrev pub IsRoleId : String → Option ℕ → List Role → ℕ → Type 0
IsRoleId name remembered roles id =
    (remembered ≡ some id)
    ⊎ ((r : Role) × (r.id ≡ id) × (r.name ≡ name) × (is_some r.deleted_at ≡ false) × Memᴰ r roles)

module _ ⦃p : Platform⦄ (selects : SelectsRoles p) (w : World) where
  pub get_role-ok :
      (name : RoleName) (r : Role) {w' : World}
      → get_role name w ≡ (ok r, w')
      → (r.name ≡ role_text name)
        × Memᴰ r w.roles
        × (is_some r.deleted_at ≡ false)
        × (w' ≡ record w { tick = w.tick + 1 })
  unfolding get_role
  get_role-ok name r h =
      let (res, e₁, h₁) =
        step-ok (p.select_role w.tick (role_text name) w.roles, record w { tick = w.tick + 1 }) h in
      let (x, rest, e₂, h₂) = first-ok res _ _ _ h₁ in
      let (named, mem, alive) = selects w.tick (role_text name) w.roles x rest (ground arith) in
      let same : x ≡ r = ground arith in rw (← same) (named, mem, alive, ground arith)

  remembered_role-ok :
      (name : RoleName) (known : Option ℕ) (put : ℕ → World → World) (ref : RoleRef) {w' : World}
      → remembered_role name known put w ≡ (ok ref, w')
      → IsRoleId (role_text name) known w.roles ref.id
        × ((w' ≡ w) ⊎ (w' ≡ put ref.id (record w { tick = w.tick + 1 })))
  unfolding remembered_role
  remembered_role-ok name known put ref {w'} h = elim (Option-cases (non_zero known)) [
    | inl none_yet ↦
        let (r, e₁, h₁) = step-ok (get_role name w) (rw (none_yet, remembered_role) at h) in
        let (named, mem, alive, w₁) = get_role-ok name r e₁ in
        let same : r.id ≡ ref.id = ground arith in
        let left : put r.id (get_role name w).1 ≡ w' = ground arith in
        (inr (r, same, named, alive, mem), inr (sym left ∙ ap₂ put same w₁))
    | inr (id, found) ↦ (inl (ground arith), inl (ground arith))
  ]

  pub get_customer_role_id-ok :
      (ref : RoleRef) {w' : World}
      → get_customer_role_id w ≡ (ok ref, w')
      → IsRoleId (role_text customer) w.customer_role_id w.roles ref.id
        × (w' ≡ record w { customer_role_id = w'.customer_role_id; tick = w'.tick })
  unfolding get_customer_role_id
  get_customer_role_id-ok ref h =
      let (is_role, left) =
        remembered_role-ok customer w.customer_role_id
          (λ id v. record v { customer_role_id = some id }) ref h in
      (is_role, elim left [ inl same ↦ ground arith | inr new ↦ ground arith ])

  pub get_service_provider_role_id-ok :
      (ref : RoleRef) {w' : World}
      → get_service_provider_role_id w ≡ (ok ref, w')
      → IsRoleId (role_text service_provider) w.service_provider_role_id w.roles ref.id
        × (w' ≡ record w { service_provider_role_id = w'.service_provider_role_id; tick = w'.tick })
  unfolding get_service_provider_role_id
  get_service_provider_role_id-ok ref h =
      let (is_role, left) =
        remembered_role-ok service_provider w.service_provider_role_id
          (λ id v. record v { service_provider_role_id = some id }) ref h in
      (is_role, elim left [ inl same ↦ ground arith | inr new ↦ ground arith ])

  pub get_admin_role_id-ok :
      (ref : RoleRef) {w' : World}
      → get_admin_role_id w ≡ (ok ref, w')
      → IsRoleId (role_text admin) w.admin_role_id w.roles ref.id
        × (w' ≡ record w { admin_role_id = w'.admin_role_id; tick = w'.tick })
  unfolding get_admin_role_id
  get_admin_role_id-ok ref h =
      let (is_role, left) =
        remembered_role-ok admin w.admin_role_id (λ id v. record v { admin_role_id = some id }) ref
          h in
      (is_role, elim left [ inl same ↦ ground arith | inr new ↦ ground arith ])

  pub get_staff_role_id-ok :
      (ref : RoleRef) {w' : World}
      → get_staff_role_id w ≡ (ok ref, w')
      → IsRoleId (role_text staff) w.staff_role_id w.roles ref.id
        × (w' ≡ record w { staff_role_id = w'.staff_role_id; tick = w'.tick })
  unfolding get_staff_role_id
  get_staff_role_id-ok ref h =
      let (is_role, left) =
        remembered_role-ok staff w.staff_role_id (λ id v. record v { staff_role_id = some id }) ref
          h in
      (is_role, elim left [ inl same ↦ ground arith | inr new ↦ ground arith ])
