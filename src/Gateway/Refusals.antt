-- ===== src/Gateway/Refusals.antt =====
-- What the client of the gateway is told where a registration has a wrong code.
use capstone_home_care_be_mi.Common.{◌+◌, ◌≡◌, String, Option, some, none, [], ◌∷◌, count, arith}
use capstone_home_care_be_mi.Data.{CodeType}
use capstone_home_care_be_mi.Errors.{err, rpc, invalid_otp, is_unique_constraint_prisma_error}
use capstone_home_care_be_mi.Errors.Contents.{
  HttpException, unprocessable_entity, details, field, held_exception, auth_exception,
}
use capstone_home_care_be_mi.Platform.{Platform}
use capstone_home_care_be_mi.Platform.Sound.{SoundTables, LiveTables}
use capstone_home_care_be_mi.World.{World}
use capstone_home_care_be_mi.Repos.{where_code}
use capstone_home_care_be_mi.Auth.{RegisterBody, try_register, register}
use capstone_home_care_be_mi.Auth.Codes.{validate-wrong}
use capstone_home_care_be_mi.Schemas.Zod.{Fields, Value, text, lookup}
use capstone_home_care_be_mi.Schemas.Bodies.{register_body_schema}
use capstone_home_care_be_mi.Schemas.Accepted.{register_body_schema-IsRegisterData}
use capstone_home_care_be_mi.Gateway.Wire.{
  Framework, SoundFramework, with_response, failed, handle_zod_error, deliver, handle,
}
use capstone_home_care_be_mi.Gateway.Requests.{register_request}
use capstone_home_care_be_mi.Gateway.Accounts.{read_register-data}

-- `new UnprocessableEntityException([{ message: 'Error.InvalidOTP', path: 'code' }])`
abbrev pub wrong_code : HttpException
wrong_code = record {
  class = unprocessable_entity;
  argument = details (record { message = "Error.InvalidOTP"; path = field "code" } ∷ []);
}

module _ ⦃p : Platform⦄ (s : SoundTables p) (live : LiveTables p) (w : World) where
  register-wrong :
      (body : RegisterBody)
      → count (where_code body.email CodeType.register body.code) w.codes ≡ 0
      → register body w ≡ (err (rpc invalid_otp), record w { tick = w.tick + 1 })
  unfolding register try_register is_unique_constraint_prisma_error
  register-wrong body zero =
      let e = validate-wrong w body.email body.code CodeType.register s live zero in ground arith

text-inj : (a b : String) (o : Option Value) → o ≡ some (text a) → o ≡ some (text b) → a ≡ b
text-inj a b o e q = ground arith

module _ ⦃p : Platform⦄ (f : Framework) (sound : SoundFramework f) (s : SoundTables p)
    (live : LiveTables p) (w : World) where
  -- Given a framework and a library for bodies as their documentation says, and sound and live
  -- tables: when the body of a registration is accepted and no REGISTER code is stored for its
  -- address with its code, the client is told an UnprocessableEntityException with the message
  -- Error.InvalidOTP at code and no status of its own, and no table has changed.
  pub register_request-wrong :
      (v out : Fields) (email code : String)
      → f.zod.parse register_body_schema v ≡ some out
      → lookup "email" out ≡ some (text email)
      → lookup "code" out ≡ some (text code)
      → count (where_code email CodeType.register code) w.codes ≡ 0
      → register_request f v w
        ≡ (failed (with_response wrong_code none), record w { tick = w.tick + 1 })
  unfolding register_request handle deliver handle_zod_error held_exception auth_exception
  register_request-wrong v out email code parsed has_email has_code zero =
      let ((body, form), _) = register_body_schema-IsRegisterData f.zod sound.zod v out parsed in
      let read = read_register-data f.zod out body form in
      let same_email = text-inj email body.email (lookup "email" out) has_email form.email in
      let same_code = text-inj code body.code (lookup "code" out) has_code form.code in
      let e = register-wrong s live w body (rw (same_email, same_code) at zero) in
      let says = sound.rejects (rpc invalid_otp) in ground arith
