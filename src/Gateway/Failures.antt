-- ===== src/Gateway/Failures.antt =====
-- What the client of the gateway is told of what a service throws.
use capstone_home_care_be_mi.Common.{◌≡◌, ◌⊎◌, inl, inr, Option, some, none, arith}
use capstone_home_care_be_mi.Errors.{Error, err}
use capstone_home_care_be_mi.Errors.Contents.{HttpException, held_exception}
use capstone_home_care_be_mi.World.{World, Action}
use capstone_home_care_be_mi.World.Laws.{Result-cases}
use capstone_home_care_be_mi.Schemas.Zod.{Fields, Schema}
use capstone_home_care_be_mi.Gateway.Wire.{
  Framework, SoundFramework, Failure, with_response, internal_error, failed, handle_zod_error,
  deliver, handle,
}
use capstone_home_care_be_mi.Gateway.Deliver.{Option-cases}

-- The response of the exception that an `RpcException` holds, with no status; else a plain 500.
abbrev pub IsPassedOn : Error → Failure → Type 0
IsPassedOn e x =
    ((held_exception e ≡ none) × (x ≡ internal_error))
    ⊎ ((response : HttpException) × (held_exception e ≡ some response)
        × (x ≡ with_response response none))

-- A failure is what the service threw, as the framework and `handleZodError` pass it on.
module _ {A B : Type 0} (f : Framework) (schema : Schema) (read : Fields → Option B)
    (service : B → Action A) (body : Fields) (w : World) where
  pub handle-failed :
      (x : Failure) {w' : World}
      → handle f schema read service body w ≡ (failed x, w')
      → (b : B) × (e : Error) × (service b w ≡ (err e, w')) × (x ≡ handle_zod_error (f.rejection e))
  unfolding handle deliver
  handle-failed x {w'} h = elim (Option-cases (f.zod.parse schema body)) [
    | inl e ↦ absurd (ground arith)
    | inr (out, e) ↦ elim (Option-cases (read out)) [
      | inl q ↦ absurd (ground arith)
      | inr (b, q) ↦ elim (Result-cases (service b w).0) [
        | inl (a, r) ↦ absurd (ground arith)
        | inr (a, r) ↦ (b, a, ground arith, ground arith)
      ]
    ]
  ]

  -- Given a framework and a library for bodies as their documentation says: where a handler of the
  -- gateway fails, the service was called and threw; the client is told the response of the
  -- HttpException that the RpcException holds, with no status, or a plain 500 where what was
  -- thrown holds none.
  pub handle-IsPassedOn :
      SoundFramework f
      → (x : Failure) {w' : World} → handle f schema read service body w ≡ (failed x, w')
      → (b : B) × (e : Error) × (service b w ≡ (err e, w')) × IsPassedOn e x
  unfolding handle_zod_error
  handle-IsPassedOn sound x h =
      let (b, e, q, r) = handle-failed x h in
      let says = sound.rejects e in
      elim (Option-cases (held_exception e)) [
        | inl n ↦ (b, e, q, inl (n, ground arith))
        | inr (response, n) ↦ (b, e, q, inr (response, n, ground arith))
      ]
