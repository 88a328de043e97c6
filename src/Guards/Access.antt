-- ===== src/Guards/Access.antt =====
-- access-token.guard.ts, and `canActivate` of authentication.guard.ts.
use capstone_home_care_be_mi.Common.{
  ℕ, String, Bool, true, not, ◌&&◌, Option, some, none, List, [], ◌∷◌, ◌++◌, map, any, ◌==◌, ◌===◌,
  is_some, non_empty,
}
use capstone_home_care_be_mi.Data.{HttpMethod, same_method, Role, Permission}
use capstone_home_care_be_mi.Errors.{Error, Result, ok, err, unauthorized, plain_forbidden}
use capstone_home_care_be_mi.Platform.{Platform, AccessTokenPayload}
use capstone_home_care_be_mi.World.{Action, pure, throw, call, catch, ◌>>=◌}
use capstone_home_care_be_mi.Services.{verify_access_token}
use capstone_home_care_be_mi.Guards.Checks.{
  Request, Context, Guard, second_word, payment_api_key_guard, handle_and_condition,
  handle_or_condition,
}

pub data AuthType : Type 0 where
  bearer none_type payment_api_key : AuthType

pub data ConditionGuard : Type 0 where
  and_condition or_condition : ConditionGuard

pub record AuthTypeDecoratorPayload : Type 0 where
  pub auth_types : List AuthType
  pub condition : ConditionGuard

-- A role that a token names and that is not deleted.
abbrev pub live_role : List ℕ → Role → Bool
live_role ids r = any (λ i. i == r.id) ids && not (is_some r.deleted_at)

-- A permission of a role for a path and a method that is not deleted.
abbrev pub live_permission : Role → String → HttpMethod → Permission → Bool
live_permission role path method x =
    any (λ i. i == x.id) role.permission_ids
    && (not (is_some x.deleted_at) && (x.path === path && same_method x.method method))

abbrev pub forbid : {A : Type 0} → Error → Action A
forbid e = throw plain_forbidden

-- `none` is a handler that has no `@Auth` decorator.
abbrev pub get_auth_type_value : Option AuthTypeDecoratorPayload → AuthTypeDecoratorPayload
get_auth_type_value (some v) = v
get_auth_type_value none = record { auth_types = bearer ∷ []; condition = and_condition }

abbrev pub run_condition : ConditionGuard → List Guard → Guard
run_condition and_condition guards = handle_and_condition guards
run_condition or_condition guards = handle_or_condition none guards

module _ ⦃p : Platform⦄ where
  -- `include: { permissions: { where } }` for each role found, then `flatMap`
  unfoldable pub include_permissions : String → HttpMethod → List Role → Action (List Permission)
  include_permissions path method [] w = (ok [], w)
  include_permissions path method (role ∷ roles) w =
      (do
        here ← λ v.
            call (λ t. p.permissions.find_many t (live_permission role path method) v.permissions) v
        more ← include_permissions path method roles
        pure (here ++ more))
        w

  unfoldable pub roles_with_permissions : AccessTokenPayload → Request → Action (List Permission)
  roles_with_permissions decoded req w =
      (do
        roles ← call (λ t. p.roles.find_many t (live_role (map (λ r. r.id) decoded.roles)) w.roles)
        include_permissions req.path req.method roles)
        w

  unfoldable pub validate_user_permission : AccessTokenPayload → Request → Action (Unit {0})
  validate_user_permission decoded req = do
    all_perms ← catch (roles_with_permissions decoded req) forbid
    elim all_perms [ [] ↦ throw plain_forbidden | _ ∷ _ ↦ pure tt ]

  unfoldable pub extract_access_token_from_header : Request → Result String
  extract_access_token_from_header r = elim (non_empty (second_word "authorization" r)) [
    | none ↦ err (unauthorized "Error.MissingAccessToken")
    | some token ↦ ok token
  ]

  unfoldable pub extract_and_validate_token : Context → Result AccessTokenPayload × Context
  extract_and_validate_token c = elim (extract_access_token_from_header c.request) [
    | err e ↦ (err e, c)
    | ok token ↦
        let (r, w) = verify_access_token token c.world in
        elim r [
          | err e ↦ (err (unauthorized "Error.InvalidAccessToken"), record c { world = w })
          | ok decoded ↦
              (ok decoded, record { request = record c.request { user = some decoded }; world = w })
        ]
  ]

  unfoldable pub access_token_guard : Guard
  access_token_guard c =
      let (r, c₁) = extract_and_validate_token c in
      elim r [
        | err e ↦ (err e, c₁)
        | ok decoded ↦
            let (done, w) = validate_user_permission decoded c₁.request c₁.world in
            elim done [
              | err e ↦ (err e, record c₁ { world = w })
              | ok _ ↦ (ok true, record c₁ { world = w })
            ]
      ]

  -- `authTypeGuardMap`
  unfoldable pub guard_of : AuthType → Guard
  guard_of bearer = access_token_guard
  guard_of payment_api_key = payment_api_key_guard
  guard_of none_type = λ c. (ok true, c)

  unfoldable pub authentication_guard : Option AuthTypeDecoratorPayload → Guard
  authentication_guard decorated c =
      let value = get_auth_type_value decorated in
      run_condition value.condition (map guard_of value.auth_types) c
