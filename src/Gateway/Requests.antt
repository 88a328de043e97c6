-- ===== src/Gateway/Requests.antt =====
-- The requests that the gateway answers by a service, from the body that came to the reply: the
-- handlers of apps/gateway/src/auth.gateway.controller.ts and manager.gateway.controller.ts, and of
-- apps/auth/src/auth.controller.ts and apps/manager/src/managers.controller.ts behind them.
-- The handlers of auth.gateway.controller.ts are public: the guard lets every request of them pass.
use capstone_home_care_be_mi.Common.{String, true, false, Option, some, none}
use capstone_home_care_be_mi.Data.{User}
use capstone_home_care_be_mi.Errors.{ok, err, plain_forbidden}
use capstone_home_care_be_mi.Platform.{Platform}
use capstone_home_care_be_mi.World.{World, Action, pure, catch, ◌>>=◌, ◌>>◌}
use capstone_home_care_be_mi.Repos.{update_device, deactivate}
use capstone_home_care_be_mi.Auth.{
  Tokens, register, send_otp, login, refresh_token, logout, logout_error, forgot_password,
  register_provider,
}
use capstone_home_care_be_mi.Guards.{Request, authentication_guard}
use capstone_home_care_be_mi.Managers.{update_provider_status}
use capstone_home_care_be_mi.Schemas.Zod.{Fields}
use capstone_home_care_be_mi.Schemas.Bodies.{
  register_body_schema, register_provider_body_schema, send_otp_body_schema, login_body_schema,
  refresh_token_body_schema, forgot_password_body_schema, update_status_provider_body_schema,
}
use capstone_home_care_be_mi.Gateway.Wire.{Framework, Reply, refused, handle}
use capstone_home_care_be_mi.Gateway.Payloads.{
  object, Client, with_client, logout_payload, refresh_payload, read_register,
  read_register_provider, read_send_otp, read_login, read_refresh_token, read_forgot_password,
  read_logout, read_update_status,
}

module _ ⦃p : Platform⦄ (f : Framework) where
  -- The `try` block of `logout` with `undefined` as the token.
  unfoldable pub try_logout_undefined : Action (Unit {0})
  try_logout_undefined = do
    (λ w. (f.verify_undefined, w))
    deleted ← f.delete_undefined
    update_device deleted.device_id deactivate
    pure tt

  unfoldable pub call_logout : Option String → Action (Unit {0})
  call_logout none = catch try_logout_undefined logout_error
  call_logout (some token) = logout token

  unfoldable pub register_request : Fields → World → Reply User × World
  register_request = handle f register_body_schema (λ b. read_register (object b)) register

  unfoldable pub send_otp_request : Fields → World → Reply (Unit {0}) × World
  send_otp_request = handle f send_otp_body_schema (λ b. read_send_otp (object b)) send_otp

  unfoldable pub login_request : Client → Fields → World → Reply Tokens × World
  login_request client =
      handle f login_body_schema (λ b. read_login (object (with_client b client))) login

  unfoldable pub refresh_token_request : Client → Fields → World → Reply Tokens × World
  refresh_token_request client =
      handle f refresh_token_body_schema (λ b. read_refresh_token (refresh_payload b client))
        refresh_token

  unfoldable pub logout_request : Fields → World → Reply (Unit {0}) × World
  logout_request =
      handle f refresh_token_body_schema (λ b. read_logout (logout_payload b)) call_logout

  unfoldable pub forgot_password_request : Fields → World → Reply (Unit {0}) × World
  forgot_password_request =
      handle f forgot_password_body_schema (λ b. read_forgot_password (object b)) forgot_password

  unfoldable pub register_provider_request : Fields → World → Reply (Unit {0}) × World
  register_provider_request =
      handle f register_provider_body_schema (λ b. read_register_provider (object b))
        register_provider

  -- `changeStatusProvider`, behind the guard of the gateway. `@ActiveUser` reads the user of a
  -- request, and a message has none.
  unfoldable pub change_status_request : Request → Fields → World → Reply (Unit {0}) × World
  change_status_request request body w =
      let (admitted, c) = authentication_guard none (record { request = request; world = w }) in
      elim admitted [
        | err e ↦ (refused e, c.world)
        | ok false ↦ (refused plain_forbidden, c.world)
        | ok true ↦
            handle f update_status_provider_body_schema (λ b. read_update_status (object b))
              (λ b. update_provider_status b none) body c.world
      ]
