-- ===== src/Guards/Permission.antt =====
-- `AccessTokenGuard`: what a request that passes has shown.
use capstone_home_care_be_mi.Common.{
  ◌+◌, mem_append, ◌≡◌, ◌≢◌, refl, String, true, some, none, any-mem, eq_iff, List, [], ◌∷◌, ◌++◌,
  map, Memᴰ, inl, inr, arith,
}
use mathlib.Core.List.Memᴰ.{not-nil}
use capstone_home_care_be_mi.Data.{Role, Permission, HttpMethod, same_method}
use capstone_home_care_be_mi.Errors.{Error, ok}
use capstone_home_care_be_mi.Platform.{Platform, AccessTokenPayload}
use capstone_home_care_be_mi.Platform.Sound.{SoundReads}
use capstone_home_care_be_mi.World.{World, catch}
use capstone_home_care_be_mi.World.Laws.{step-ok, catch-ok, first-ok, Result-cases}
use capstone_home_care_be_mi.Services.{verify_access_token}
use capstone_home_care_be_mi.Guards.{
  Request, Context, live_role, live_permission, forbid, include_permissions, roles_with_permissions,
  validate_user_permission, extract_access_token_from_header, extract_and_validate_token,
  access_token_guard,
}

-- A role that the token names grants the path and the method: neither the role nor the permission
-- is deleted.
pub record IsGranted (d : AccessTokenPayload) (r : Request) (w : World) : Type 0 where
  pub role : Role
  pub named : Memᴰ role.id (map (λ x. x.id) d.roles)
  pub role_alive : role.deleted_at ≡ none
  pub stored : Memᴰ role w.roles
  pub permission : Permission
  pub listed : Memᴰ permission.id role.permission_ids
  pub alive : permission.deleted_at ≡ none
  pub path : permission.path ≡ r.path
  pub method : permission.method ≡ r.method
  pub held : Memᴰ permission w.permissions

same_method-eq : (a b : HttpMethod) → same_method a b ≡ true → a ≡ b
same_method-eq a b h = ground arith

module _ ⦃p : Platform⦄ (s : SoundReads p) where
  -- Each permission that was included belongs to one of the roles.
  include_permissions-mem :
      (path : String) (method : HttpMethod) (roles : List Role) (w : World) (all : List Permission)
      {w' : World} (x : Permission)
      → include_permissions path method roles w ≡ (ok all, w')
      → Memᴰ x all
      → (role : Role) × Memᴰ role roles
        × (live_permission role path method x ≡ true)
        × Memᴰ x w.permissions
  unfolding include_permissions
  include_permissions-mem path method [] w all x h mem =
      let nothing : [] ≡ all = ground arith in absurd (not-nil (rw (← nothing) at mem))
  include_permissions-mem path method (role ∷ roles) w all x h mem =
      let (here, e₁, h₁) =
        step-ok
          (
            p.permissions.find_many w.tick (live_permission role path method) w.permissions,
            record w { tick = w.tick + 1 },
          )
          h in
      let (more, e₂, h₂) = step-ok (include_permissions path method roles _) h₁ in
      let same : here ++ more ≡ all = ground arith in
      elim (mem_append here more (rw (← same) at mem)) [
        | inl at_first ↦
            let (hit, held) =
              s.permissions w.tick (live_permission role path method) w.permissions here
                (ground arith) x at_first in
            (role, Memᴰ.head refl, hit, held)
        | inr further ↦
            let (r, of, hit, held) =
              include_permissions-mem path method roles _ more x e₂ further in
            (r, Memᴰ.tail of, hit, held)
      ]

  roles_with_permissions-IsGranted :
      (d : AccessTokenPayload) (req : Request) (w : World) (x : Permission) (rest : List Permission)
      {w' : World}
      → roles_with_permissions d req w ≡ (ok (x ∷ rest), w')
      → IsGranted d req w
  unfolding roles_with_permissions
  roles_with_permissions-IsGranted d req w x rest h =
      let (roles, e₁, h₁) =
        step-ok
          (
            p.roles.find_many w.tick (live_role (map (λ r. r.id) d.roles)) w.roles,
            record w { tick = w.tick + 1 },
          )
          h in
      let (role, of, hit, held) =
        include_permissions-mem req.path req.method roles _ (x ∷ rest) x h₁ (Memᴰ.head refl) in
      let (named, stored) =
        s.roles w.tick (live_role (map (λ r. r.id) d.roles)) w.roles roles (ground arith) role of in
      record {
        role = role;
        named = any-mem role.id (map (λ r. r.id) d.roles) (ground arith);
        role_alive = ground arith;
        stored = stored;
        permission = x;
        listed = any-mem x.id role.permission_ids (ground arith);
        alive = ground arith;
        path = ground (arith, eq_iff x.path req.path);
        method = same_method-eq x.method req.method (ground arith);
        held = held;
      }

  validate_user_permission-IsGranted :
      (d : AccessTokenPayload) (req : Request) (w : World) {w' : World}
      → validate_user_permission d req w ≡ (ok tt, w')
      → IsGranted d req w
  unfolding validate_user_permission
  validate_user_permission-IsGranted d req w h =
      let (all, e₁, h₁) = step-ok (catch (roles_with_permissions d req) forbid w) h in
      let (x, rest, e₂, h₂) = first-ok all _ _ _ h₁ in
      let run =
        catch-ok (roles_with_permissions d req) forbid w (x ∷ rest)
          (catch (roles_with_permissions d req) forbid w).1 (λ e v. never_ok e v (x ∷ rest))
          (ground arith) in
      roles_with_permissions-IsGranted d req w x rest run
    where
      never_ok : (e : Error) (v : World) (a : List Permission) → (forbid e v).0 ≢ ok a
      never_ok e v a = ground arith

-- The token in the header says `d`, the request carries `d` from now on, and a role of `d` grants it.
pub record IsAdmitted ⦃p : Platform⦄ (c c' : Context) : Type 0 where
  pub token : String
  pub sent : extract_access_token_from_header c.request ≡ ok token
  pub user : AccessTokenPayload
  pub says : (verify_access_token token c.world).0 ≡ ok user
  pub carried : c'.request ≡ record c.request { user = some user }
  pub granted : IsGranted user c.request c.world

module _ ⦃p : Platform⦄ (s : SoundReads p) where
  -- Given sound reads of roles and permissions: a request that AccessTokenGuard lets pass carries
  -- a token that verifies, its user is set to what the token says, and one of the roles in it, not
  -- deleted, has a permission, not deleted, for the path and the method of the request.
  pub access_token_guard-IsAdmitted :
      (c c' : Context) → access_token_guard c ≡ (ok true, c') → IsAdmitted c c'
  unfolding access_token_guard extract_and_validate_token verify_access_token
  access_token_guard-IsAdmitted c c' h =
      elim (Result-cases (extract_access_token_from_header c.request)) [
        | inr (e, q) ↦ absurd (ground arith)
        | inl (token, q) ↦ elim (Result-cases (verify_access_token token c.world).0) [
          | inr (e, q₂) ↦ absurd (ground arith)
          | inl (d, q₂) ↦
              let req = record c.request { user = some d } in
              let w = record c.world { tick = c.world.tick + 1 } in
              elim (Result-cases (validate_user_permission d req w).0) [
                | inr (e, q₃) ↦ absurd (ground arith)
                | inl (u, q₃) ↦
                    let g =
                      validate_user_permission-IsGranted s d req w
                        {w' = (validate_user_permission d req w).1} (ground arith) in
                    record {
                      token = token;
                      sent = q;
                      user = d;
                      says = q₂;
                      carried = ground arith;
                      granted = record {
                        role = g.role;
                        named = g.named;
                        role_alive = g.role_alive;
                        stored = g.stored;
                        permission = g.permission;
                        listed = g.listed;
                        alive = g.alive;
                        path = g.path;
                        method = g.method;
                        held = g.held;
                      };
                    }
              ]
        ]
      ]
