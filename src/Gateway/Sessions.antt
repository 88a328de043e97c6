-- ===== src/Gateway/Sessions.antt =====
-- Logins, new tokens and logouts, from the body that came to what the client is told.
use capstone_home_care_be_mi.Common.{◌≡◌, ◌⊎◌, inl, inr, refl, some, none, arith, Bool-cases}
use capstone_home_care_be_mi.Errors.{
  Error, err, is_http_exception, is_not_found_prisma_error, plain_unauthorized,
}
use capstone_home_care_be_mi.Errors.Contents.{held_exception}
use capstone_home_care_be_mi.Platform.{Platform}
use capstone_home_care_be_mi.World.{World}
use capstone_home_care_be_mi.World.Laws.{Result-cases}
use capstone_home_care_be_mi.Auth.{refresh_token, try_refresh_token, RefreshTokenBody}
use capstone_home_care_be_mi.Schemas.Zod.{Fields, lookup}
use capstone_home_care_be_mi.Schemas.Bodies.{refresh_token_body_schema}
use capstone_home_care_be_mi.Gateway.Wire.{
  Framework, SoundFramework, Failure, internal_error, failed, invalid_body, handle_zod_error,
  deliver, handle,
}
use capstone_home_care_be_mi.Gateway.Payloads.{
  Client, refresh_payload, read_refresh_token, logout_payload, read_logout,
}
use capstone_home_care_be_mi.Gateway.Requests.{
  refresh_token_request, logout_request, call_logout, try_logout_undefined,
}
use capstone_home_care_be_mi.Gateway.Failures.{handle-IsPassedOn}
use capstone_home_care_be_mi.Gateway.Deliver.{Option-cases}

pub read_logout-undefined : (out : Fields) → read_logout (logout_payload out) ≡ some none
unfolding read_logout logout_payload
read_logout-undefined out = elim (Option-cases (lookup "refreshToken" out)) [
  | inl e ↦ rw (e, logout_payload, read_logout) refl
  | inr (v, e) ↦ rw (e, logout_payload, read_logout) refl
]

module _ ⦃p : Platform⦄ where
  refresh_token-no_rpc :
      (body : RefreshTokenBody) (w : World) (e : Error) {w' : World}
      → refresh_token body w ≡ (err e, w')
      → held_exception e ≡ none
  unfolding refresh_token held_exception
  refresh_token-no_rpc body w e {w'} h = elim (Result-cases (try_refresh_token body w).0) [
    | inl (a, q) ↦ absurd (ground arith)
    | inr (x, q) ↦ elim (Bool-cases (is_http_exception x)) [
      | inl http ↦ ground arith
      | inr other ↦ ground arith
    ]
  ]

module _ ⦃p : Platform⦄ (f : Framework) (sound : SoundFramework f) (w : World) where
  -- Given a framework and a library for bodies as their documentation says: whatever refreshToken
  -- throws, the gateway answers a plain 500.
  pub refresh_token_request-error :
      (client : Client) (v : Fields) (x : Failure) {w' : World}
      → refresh_token_request f client v w ≡ (failed x, w')
      → x ≡ internal_error
  unfolding refresh_token_request
  refresh_token_request-error client v x h =
      let (b, e, q, passed) =
        handle-IsPassedOn f refresh_token_body_schema
          (λ b. read_refresh_token (refresh_payload b client)) refresh_token v w sound x h in
      elim passed [
        | inl (_, r) ↦ r
        | inr (response, held, _) ↦
            let nothing = refresh_token-no_rpc b w e q in absurd (ground arith)
      ]

  call_logout-undefined : call_logout f none w ≡ (err plain_unauthorized, w)
  unfolding call_logout try_logout_undefined is_not_found_prisma_error
  call_logout-undefined = let (message, e) = sound.verifies_no in rw e refl

  -- Given a framework and a library for bodies as their documentation says: no logout at the
  -- gateway succeeds. A body that does not pass is refused; any other is answered with a plain
  -- 500; and the state stays as it is.
  pub logout_request-fails :
      (v : Fields)
      → (logout_request f v w ≡ (invalid_body, w))
        ⊎ (logout_request f v w ≡ (failed internal_error, w))
  unfolding logout_request handle deliver handle_zod_error held_exception
  logout_request-fails v = elim (Option-cases (f.zod.parse refresh_token_body_schema v)) [
    | inl e ↦ inl (ground arith)
    | inr (out, e) ↦
        let read = read_logout-undefined out in
        let thrown = call_logout-undefined in
        let says = sound.rejects plain_unauthorized in inr (ground arith)
  ]
