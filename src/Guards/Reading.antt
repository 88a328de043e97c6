-- ===== src/Guards/Reading.antt =====
-- `AccessTokenGuard` and the tables: what is left of them after it.
use capstone_home_care_be_mi.Common.{
  ℕ, ◌+◌, ◌≡◌, refl, String, some, List, [], ◌∷◌, map, arith, inl, inr,
}
use capstone_home_care_be_mi.Data.{HttpMethod, Role}
use capstone_home_care_be_mi.Errors.{plain_forbidden}
use capstone_home_care_be_mi.Platform.{Platform, AccessTokenPayload}
use capstone_home_care_be_mi.World.{World, catch}
use capstone_home_care_be_mi.World.Keeps.{keeps-bind, keeps-first, keeps-catch}
use capstone_home_care_be_mi.World.Laws.{Result-cases}
use capstone_home_care_be_mi.Services.{verify_access_token}
use capstone_home_care_be_mi.Guards.{
  Request, Context, live_role, live_permission, forbid, include_permissions, roles_with_permissions,
  validate_user_permission, extract_access_token_from_header, extract_and_validate_token,
  access_token_guard,
}

-- Nothing but the number of calls differs.
abbrev pub IsTicked : World → World → Type 0
IsTicked w v = (t : ℕ) × (v ≡ record w { tick = t })

pub IsTicked-providers : (w v : World) → IsTicked w v → v.providers ≡ w.providers
IsTicked-providers w v (t, e) = rw e refl

IsTicked-next : (w v : World) → IsTicked w v → IsTicked w (record v { tick = v.tick + 1 })
IsTicked-next w v (t, e) = (v.tick + 1, λ i. record (e i) { tick = v.tick + 1 })

module _ ⦃p : Platform⦄ (w : World) where
  include_permissions-IsTicked :
      (path : String) (method : HttpMethod) (roles : List Role) (v : World)
      → IsTicked w v
      → IsTicked w (include_permissions path method roles v).1
  unfolding include_permissions
  include_permissions-IsTicked path method [] v i = i
  include_permissions-IsTicked path method (role ∷ roles) v i =
      let i₁ = IsTicked-next w v i in
      keeps-bind (IsTicked w)
        (
          p.permissions.find_many v.tick (live_permission role path method) v.permissions,
          record v { tick = v.tick + 1 },
        )
        _ i₁
        λ here _.
          keeps-bind (IsTicked w)
            (include_permissions path method roles (record v { tick = v.tick + 1 })) _
            (include_permissions-IsTicked path method roles _ i₁)
            λ more _. include_permissions-IsTicked path method roles _ i₁

  roles_with_permissions-IsTicked :
      (d : AccessTokenPayload) (r : Request) (v : World)
      → IsTicked w v
      → IsTicked w (roles_with_permissions d r v).1
  unfolding roles_with_permissions
  roles_with_permissions-IsTicked d r v i =
      let i₁ = IsTicked-next w v i in
      keeps-bind (IsTicked w)
        (
          p.roles.find_many v.tick (live_role (map (λ x. x.id) d.roles)) v.roles,
          record v { tick = v.tick + 1 },
        )
        _ i₁ λ roles _. include_permissions-IsTicked r.path r.method roles _ i₁

  validate_user_permission-IsTicked :
      (d : AccessTokenPayload) (r : Request) (v : World)
      → IsTicked w v
      → IsTicked w (validate_user_permission d r v).1
  unfolding validate_user_permission
  validate_user_permission-IsTicked d r v i =
      let i₁ =
        keeps-catch (IsTicked w) (roles_with_permissions d r) forbid v
          (roles_with_permissions-IsTicked d r v i) (λ e u j. j) in
      keeps-bind (IsTicked w) (catch (roles_with_permissions d r) forbid v) _ i₁
        λ perms _. keeps-first (IsTicked w) perms plain_forbidden _ _ i₁ λ _. i₁

module _ ⦃p : Platform⦄ where
  -- .
  pub access_token_guard-IsTicked : (c : Context) → IsTicked c.world (access_token_guard c).1.world
  unfolding access_token_guard extract_and_validate_token verify_access_token
  access_token_guard-IsTicked c =
      let i : IsTicked c.world c.world = (c.world.tick, refl) in
      elim (Result-cases (extract_access_token_from_header c.request)) [
        | inr (e, q) ↦ (c.world.tick, ground arith)
        | inl (token, q) ↦
            let i₁ = IsTicked-next c.world c.world i in
            elim (Result-cases (verify_access_token token c.world).0) [
              | inr (e, q₂) ↦ (c.world.tick + 1, ground arith)
              | inl (d, q₂) ↦
                  let req = record c.request { user = some d } in
                  let w₁ = record c.world { tick = c.world.tick + 1 } in
                  let (t, same) = validate_user_permission-IsTicked c.world d req w₁ i₁ in
                  elim (Result-cases (validate_user_permission d req w₁).0) [
                    | inr (e, q₃) ↦ (t, ground arith)
                    | inl (u, q₃) ↦ (t, ground arith)
                  ]
            ]
      ]
