-- ===== src/System/Runs.antt =====
-- Runs of the services: requests one after the other, each of which returns or throws.
use capstone_home_care_be_mi.Common.{
  ap, ◌∙◌, arith, eq_iff, inl, inr, count-append, ◌∷◌, [], ℕ, ◌≡◌, ◌≢◌, String, Option, All-mem,
  count, ◌===◌,
}
use capstone_home_care_be_mi.Errors.{ok}
use capstone_home_care_be_mi.Platform.{Platform, AccessTokenPayload}
use capstone_home_care_be_mi.Platform.Sound.{SoundTables, LiveTables, SelectsRoles}
use capstone_home_care_be_mi.World.{World}
use capstone_home_care_be_mi.Services.{verify_refresh_token}
use capstone_home_care_be_mi.Auth.{
  RegisterBody, RegisterProviderBody, SendOtpBody, LoginBody, RefreshTokenBody, ForgotPasswordBody,
  register, register_provider, send_otp, login, refresh_token, logout, forgot_password,
}
use capstone_home_care_be_mi.Auth.Google.{GoogleClient, google_callback}
use capstone_home_care_be_mi.Auth.Revocation.{logout_returns}
use capstone_home_care_be_mi.Managers.{UpdateStatusProviderBody, update_provider_status}
use capstone_home_care_be_mi.System.Consistent.{IsConsistent, HasDevice, HasRole, HasRole-mem}
use capstone_home_care_be_mi.Data.{User, customer}
use capstone_home_care_be_mi.Auth.Register.{register-IsRegistered}
use capstone_home_care_be_mi.System.Accounts.{
  register-IsConsistent, register_provider-IsConsistent, send_otp-IsConsistent,
  forgot_password-IsConsistent,
}
use capstone_home_care_be_mi.System.Sessions.{
  login-IsConsistent, refresh_token-IsConsistent, logout-IsConsistent,
}
use capstone_home_care_be_mi.System.Others.{
  google_callback-IsConsistent, update_provider_status-IsConsistent,
}

-- One request, with the state that it leaves.
pub data Step ⦃p : Platform⦄ : World → World → Type 0 where
  registers : {w : World} (body : RegisterBody) → Step w (register body w).1
  registers_provider :
      {w : World} (body : RegisterProviderBody) → Step w (register_provider body w).1
  sends_otp : {w : World} (body : SendOtpBody) → Step w (send_otp body w).1
  logs_in : {w : World} (body : LoginBody) → Step w (login body w).1
  refreshes : {w : World} (body : RefreshTokenBody) → Step w (refresh_token body w).1
  logs_out : {w : World} (token : String) → Step w (logout token w).1
  resets : {w : World} (body : ForgotPasswordBody) → Step w (forgot_password body w).1
  calls_back :
      {w : World} (g : GoogleClient) (code : String) (state : Option String)
      → Step w (google_callback g code state w).1
  decides :
      {w : World} (body : UpdateStatusProviderBody) (user_id : Option ℕ)
      → Step w (update_provider_status body user_id w).1

pub data Reach ⦃p : Platform⦄ : World → World → Type 0 where
  here : {w : World} → Reach w w
  then : {w v u : World} → Reach w v → Step v u → Reach w u

module _ ⦃p : Platform⦄ (s : SoundTables p) (selects : SelectsRoles p) where
  pub Step-IsConsistent : {w v : World} → Step w v → IsConsistent w → IsConsistent v
  Step-IsConsistent (registers {w} body) i = register-IsConsistent s selects w i body
  Step-IsConsistent (registers_provider {w} body) i =
      register_provider-IsConsistent s selects w i body
  Step-IsConsistent (sends_otp {w} body) i = send_otp-IsConsistent s w i body
  Step-IsConsistent (logs_in {w} body) i = login-IsConsistent s w i body
  Step-IsConsistent (refreshes {w} body) i = refresh_token-IsConsistent s w i body
  Step-IsConsistent (logs_out {w} token) i = logout-IsConsistent s w i token
  Step-IsConsistent (resets {w} body) i = forgot_password-IsConsistent s w i body
  Step-IsConsistent (calls_back {w} g code state) i =
      google_callback-IsConsistent s selects w i g code state
  Step-IsConsistent (decides {w} body user_id) i =
      update_provider_status-IsConsistent s w i body user_id

  -- Given sound tables and a sound selection of roles: in every state that requests of the auth
  -- and manager services lead to, one after the other, each returning or throwing, from consistent
  -- tables, the tables are consistent: addresses, user ids, device ids and refresh tokens are each
  -- unique, a user has one profile and one company at most, an address has one code of each kind
  -- at most, and a profile, a company or a refresh token belongs to a stored user or device; and a
  -- role id that is remembered is that of a stored role of its name that is not deleted.
  pub Reach-IsConsistent : {w v : World} → Reach w v → IsConsistent w → IsConsistent v
  Reach-IsConsistent here i = i
  Reach-IsConsistent (then run step) i = Step-IsConsistent step (Reach-IsConsistent run i)

module _ ⦃p : Platform⦄ (s : SoundTables p) (selects : SelectsRoles p) (live : LiveTables p) where
  -- Given sound and live tables and a sound selection of roles: in every state that requests lead
  -- to from consistent tables, logout returns for a token that verifies and is stored; that its
  -- device is stored needs no assumption.
  pub logout-Reach :
      {w v : World} (token : String) (d : AccessTokenPayload)
      → IsConsistent w
      → Reach w v
      → (verify_refresh_token token v).0 ≡ ok d
      → count (λ r. r.token === token) v.tokens ≢ 0
      → (logout token v).0 ≡ ok tt
  logout-Reach {w} {v} token d i run says stored =
      let j = Reach-IsConsistent s selects run i in
      logout_returns s live v token d says stored
        λ r mem _. All-mem (λ r. HasDevice v.devices r.device_id) v.tokens j.at.token_devices mem

module _ ⦃p : Platform⦄ (s : SoundTables p) (selects : SelectsRoles p) where
  -- Given sound tables and a sound selection of roles: in every state that requests lead to from
  -- consistent tables, a user whom register returns has one role, that of a stored customer role
  -- that is not deleted, and afterwards is the only user of the address.
  pub register-Reach :
      {w v v' : World} (body : RegisterBody) (u : User)
      → IsConsistent w
      → Reach w v
      → register body v ≡ (ok u, v')
      → (role : ℕ) × (u.role_ids ≡ role ∷ [])
        × HasRole v.roles customer role
        × (count (λ x. x.email === u.email) v'.users ≡ 1)
  register-Reach {w} {v} {v'} body u i run h =
      let j = Reach-IsConsistent s selects run i in
      let r = register-IsRegistered s selects v body u h in
      let o = r.opened in
      let made = o.made in
      let owned : HasRole v.roles customer r.role = elim r.is_role [
        | inl known ↦ j.remembers.customer_role r.role known
        | inr (x, same, named, alive, mem) ↦
            HasRole-mem v.roles customer x r.role named mem alive same
      ] in
      let same : u.email ≡ body.email = made.email in
      let free : count (λ x. x.email === u.email) v.users ≡ 0 = rw same o.unused in
      let one : count (λ x. x.email === u.email) v'.users ≡ 1 =
        ap (count (λ x. x.email === u.email)) o.users
        ∙ ground (
          arith,
          free,
          count-append (λ x. x.email === u.email) v.users (u ∷ []),
          eq_iff u.email u.email,
        ) in
      (r.role, made.role_ids, owned, one)
