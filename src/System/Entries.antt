-- ===== src/System/Entries.antt =====
-- Runs of the program as its clients see it: requests of the gateway, one after the other, whatever
-- each is answered with.
use capstone_home_care_be_mi.Common.{inl, inr, Option, String, none, some, arith, Bool-cases}
use capstone_home_care_be_mi.Platform.{Platform}
use capstone_home_care_be_mi.Platform.Sound.{SoundTables, SelectsRoles}
use capstone_home_care_be_mi.World.{World, Action}
use capstone_home_care_be_mi.World.Laws.{Result-cases}
use capstone_home_care_be_mi.Auth.{
  register, register_provider, send_otp, login, refresh_token, forgot_password,
}
use capstone_home_care_be_mi.Guards.{
  Request, Context, guard_of, access_token_guard, authentication_guard, handle_and_condition,
}
use capstone_home_care_be_mi.Guards.Reading.{IsTicked, access_token_guard-IsTicked}
use capstone_home_care_be_mi.Managers.{update_provider_status}
use capstone_home_care_be_mi.Schemas.Zod.{Fields, Schema}
use capstone_home_care_be_mi.Schemas.Bodies.{update_status_provider_body_schema}
use capstone_home_care_be_mi.Gateway.Wire.{Framework, SoundFramework, deliver, handle}
use capstone_home_care_be_mi.Gateway.Payloads.{Client, object, read_update_status}
use capstone_home_care_be_mi.Gateway.Requests.{
  register_request, send_otp_request, login_request, refresh_token_request, logout_request,
  forgot_password_request, register_provider_request, change_status_request,
}
use capstone_home_care_be_mi.Gateway.Deliver.{Option-cases}
use capstone_home_care_be_mi.Gateway.Sessions.{logout_request-fails}
use capstone_home_care_be_mi.System.Consistent.{IsConsistent, IsConsistent-tick}
use capstone_home_care_be_mi.System.Accounts.{
  register-IsConsistent, register_provider-IsConsistent, send_otp-IsConsistent,
  forgot_password-IsConsistent,
}
use capstone_home_care_be_mi.System.Sessions.{login-IsConsistent, refresh_token-IsConsistent}
use capstone_home_care_be_mi.System.Others.{update_provider_status-IsConsistent}

-- One request at the gateway, with the state that it leaves. A login has a User-Agent header:
-- without one its device cannot be stored, which `login_request` does not follow up to there.
pub data Entry ⦃p : Platform⦄ (f : Framework) : World → World → Type 0 where
  registers : {w : World} (v : Fields) → Entry f w (register_request f v w).1
  registers_provider : {w : World} (v : Fields) → Entry f w (register_provider_request f v w).1
  sends_otp : {w : World} (v : Fields) → Entry f w (send_otp_request f v w).1
  logs_in :
      {w : World} (ip agent : String) (v : Fields)
      → Entry f w (login_request f (record { ip = ip; user_agent = some agent }) v w).1
  refreshes :
      {w : World} (client : Client) (v : Fields) → Entry f w (refresh_token_request f client v w).1
  logs_out : {w : World} (v : Fields) → Entry f w (logout_request f v w).1
  resets : {w : World} (v : Fields) → Entry f w (forgot_password_request f v w).1
  decides :
      {w : World} (request : Request) (v : Fields)
      → Entry f w (change_status_request f request v w).1

pub data Visit ⦃p : Platform⦄ (f : Framework) : World → World → Type 0 where
  here : {w : World} → Visit f w w
  then : {w v u : World} → Visit f w v → Entry f v u → Visit f w u

-- What holds before a request holds after it, if the service keeps it on every body.
module _ (I : World → Type 0) {A B : Type 0} (f : Framework) (schema : Schema)
    (read : Fields → Option B) (service : B → Action A) where
  keeps-handle :
      (v : Fields) (w : World)
      → I w
      → ((b : B) → I (service b w).1)
      → I (handle f schema read service v w).1
  unfolding handle deliver
  keeps-handle v w i kept = elim (Option-cases (f.zod.parse schema v)) [
    | inl e ↦ rw (e, handle) i
    | inr (out, e) ↦ elim (Option-cases (read out)) [
      | inl q ↦ rw (e, handle, q, deliver) i
      | inr (b, q) ↦ elim (Result-cases (service b w).0) [
        | inl (a, r) ↦ rw (e, handle, q, deliver, r) (kept b)
        | inr (x, r) ↦ rw (e, handle, q, deliver, r) (kept b)
      ]
    ]
  ]

IsConsistent-IsTicked : (w v : World) → IsTicked w v → IsConsistent w → IsConsistent v
IsConsistent-IsTicked w v (t, e) i = rw e (IsConsistent-tick w t i)

guards-IsTicked :
    ⦃p : Platform⦄ (c : Context) → IsTicked c.world (authentication_guard none c).1.world
unfolding authentication_guard guard_of handle_and_condition
guards-IsTicked c =
    let (t, e) = access_token_guard-IsTicked c in
    elim (Result-cases (access_token_guard c).0) [
      | inr (x, q) ↦ (t, ground arith)
      | inl (b, q) ↦ elim (Bool-cases b) [ inl r ↦ (t, ground arith) | inr r ↦ (t, ground arith) ]
    ]

module _ ⦃p : Platform⦄ (f : Framework) (sound : SoundFramework f) (s : SoundTables p)
    (selects : SelectsRoles p) where
  change_status_request-IsConsistent :
      (w : World) (request : Request) (v : Fields)
      → IsConsistent w
      → IsConsistent (change_status_request f request v w).1
  unfolding change_status_request
  change_status_request-IsConsistent w request v i =
      let c : Context = record { request = request; world = w } in
      let passed = (authentication_guard none c).1 in
      let j = IsConsistent-IsTicked w passed.world (guards-IsTicked c) i in
      let k =
        keeps-handle IsConsistent f update_status_provider_body_schema
          (λ b. read_update_status (object b)) (λ b. update_provider_status b none) v passed.world j
          (λ b. update_provider_status-IsConsistent s passed.world j b none) in
      elim (Result-cases (authentication_guard none c).0) [
        | inr (e, q) ↦ rw (change_status_request, q) j
        | inl (b, q) ↦ elim (Bool-cases b) [
          | inl e ↦ rw (change_status_request, q, e) k
          | inr e ↦ rw (change_status_request, q, e) j
        ]
      ]

  Entry-IsConsistent : {w v : World} → Entry f w v → IsConsistent w → IsConsistent v
  unfolding register_request send_otp_request login_request refresh_token_request
      forgot_password_request register_provider_request
  Entry-IsConsistent (registers {w} v) i =
      keeps-handle IsConsistent f _ _ register v w i (λ b. register-IsConsistent s selects w i b)
  Entry-IsConsistent (registers_provider {w} v) i =
      keeps-handle IsConsistent f _ _ register_provider v w i
        (λ b. register_provider-IsConsistent s selects w i b)
  Entry-IsConsistent (sends_otp {w} v) i =
      keeps-handle IsConsistent f _ _ send_otp v w i (λ b. send_otp-IsConsistent s w i b)
  Entry-IsConsistent (logs_in {w} ip agent v) i =
      keeps-handle IsConsistent f _ _ login v w i (λ b. login-IsConsistent s w i b)
  Entry-IsConsistent (refreshes {w} client v) i =
      keeps-handle IsConsistent f _ _ refresh_token v w i (λ b. refresh_token-IsConsistent s w i b)
  Entry-IsConsistent (logs_out {w} v) i = elim (logout_request-fails f sound w v) [
    | inl e ↦ rw e i
    | inr e ↦ rw e i
  ]
  Entry-IsConsistent (resets {w} v) i =
      keeps-handle IsConsistent f _ _ forgot_password v w i
        (λ b. forgot_password-IsConsistent s w i b)
  Entry-IsConsistent (decides {w} request v) i = change_status_request-IsConsistent w request v i

  -- Given a framework and a library for bodies as their documentation says, sound tables and a
  -- sound selection of roles: whatever requests come to the eight routes of the gateway that reach
  -- the auth and manager services, logins with a User-Agent header, in whatever order and however
  -- the services answer, the tables stay consistent if they were so at first.
  pub Visit-IsConsistent : {w v : World} → Visit f w v → IsConsistent w → IsConsistent v
  Visit-IsConsistent here i = i
  Visit-IsConsistent (then run entry) i = Entry-IsConsistent entry (Visit-IsConsistent run i)
