-- ===== src/Gateway/Wire.antt =====
-- A message from the gateway to a service and back: what the framework and zod do on the way, as
-- parameters, and what the client of the gateway is told (`handleZodError` of libs/common/helpers.ts,
-- libs/common/src/pipes/custom-zod-validation.pipe.ts).
use capstone_home_care_be_mi.Common.{ℕ, ◌≡◌, String, Option, some, none}
use capstone_home_care_be_mi.Errors.{Error, failure, Result, ok, err}
use capstone_home_care_be_mi.Data.{RefreshToken}
use capstone_home_care_be_mi.Platform.{AccessTokenPayload}
use capstone_home_care_be_mi.Errors.Contents.{HttpException, held_exception}
use capstone_home_care_be_mi.World.{World, Action}
use capstone_home_care_be_mi.Schemas.Zod.{Fields, Zod, SoundZod, Schema}

-- What `send` is rejected with: `error.response`, known by the exception that it is the response of,
-- and `error.statusCode`.
pub record Rejection : Type 0 where
  pub response : Option HttpException
  pub status_code : Option ℕ

pub record Framework : Type 0 where
  pub zod : Zod
  -- what the client of a service is rejected with, where a handler throws
  pub rejection : Error → Rejection
  -- jsonwebtoken's answer to `undefined` as a token, and Prisma's as one to delete
  pub verify_undefined : Result AccessTokenPayload
  pub delete_undefined : Action RefreshToken

-- An `RpcException` rejects with what it holds; anything else that is thrown, with
-- `{ status: 'error', message: 'Internal server error' }`. An `HttpException` has a `response` and a
-- `status`, and no `statusCode`.
pub record SoundFramework (f : Framework) : Type 0 where
  pub zod : SoundZod f.zod
  pub rejects :
      (e : Error) → f.rejection e ≡ record { response = held_exception e; status_code = none }
  pub verifies_no : (message : String) × (f.verify_undefined ≡ err (failure message))

-- The two exceptions that `handleZodError` throws, with their status.
pub data Failure : Type 0 where
  with_response : HttpException → Option ℕ → Failure
  with_text : String → ℕ → Failure

abbrev pub internal_error : Failure
internal_error = with_text "Internal server error" 500

unfoldable pub handle_zod_error : Rejection → Failure
handle_zod_error error = elim error.response [
  | some response ↦ with_response response error.status_code
  | none ↦ internal_error
]

-- What a request is answered with. `refused` is a guard's exception, `invalid_body` the exception
-- of the validation pipe; `untyped` stands for a service called with what is not a body of its.
pub data Reply (A : Type 0) : Type 0 where
  answer : A → Reply A
  failed : Failure → Reply A
  refused : Error → Reply A
  invalid_body untyped : Reply A

module _ {A B : Type 0} (f : Framework) where
  -- The handler of a service on the body that it reads of a payload, and the `try` around `send`,
  -- where the service is reached.
  unfoldable pub deliver : Option B → (B → Action A) → World → Reply A × World
  deliver none service w = (untyped, w)
  deliver (some b) service w =
      let (r, w') = service b w in
      elim r [ ok a ↦ (answer a, w') | err e ↦ (failed (handle_zod_error (f.rejection e)), w') ]

  -- A handler of the gateway: `CustomZodValidationPipe` on its body, and `deliver` on the payload
  -- that it builds of the data.
  unfoldable pub handle :
      Schema → (Fields → Option B) → (B → Action A) → Fields → World → Reply A × World
  handle schema read service body w = elim (f.zod.parse schema body) [
    | none ↦ (invalid_body, w)
    | some out ↦ deliver (read out) service w
  ]
