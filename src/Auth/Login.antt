-- ===== src/Auth/Login.antt =====
-- `login`: what a request that is given tokens has shown, and what it leaves.
use capstone_home_care_be_mi.Common.{
  ℕ, ◌+◌, ◌≡◌, ◌≤◌, ◌⊎◌, inl, inr, refl, String, true, not, some, none, List, [], ◌∷◌, ◌++◌, Memᴰ,
  count, ◌==◌, ◌===◌, is_some, non_empty, arith, Option-cases,
}
use capstone_home_care_be_mi.Data.{User, Device, RefreshToken, VerificationCode, CodeType}
use capstone_home_care_be_mi.Errors.{ok}
use capstone_home_care_be_mi.Platform.{Platform, AccessTokenPayloadCreate}
use capstone_home_care_be_mi.Platform.Sound.{SoundTables}
use capstone_home_care_be_mi.World.{World}
use capstone_home_care_be_mi.World.Laws.{step-ok, guard-ok, found-ok, Result-cases}
use capstone_home_care_be_mi.Services.{create_totp, verify_totp, compare, access_options}
use capstone_home_care_be_mi.Repos.{UserIncludeRole, find_unique_user_include_role, create_device}
use capstone_home_care_be_mi.Repos.Laws.{create_device-ok}
use capstone_home_care_be_mi.Repos.FindLaws.{find_user_include-some}
use capstone_home_care_be_mi.Auth.Bodies.{LoginBody, Tokens}
use capstone_home_care_be_mi.Auth.Service.{validate_verification_code, second_factor, login}
use capstone_home_care_be_mi.Auth.Codes.{validate-ok}
use capstone_home_care_be_mi.Auth.Sessions.{IsSigned, generate_tokens-IsIssued}

-- A one-time code for logging in that was stored and had not run out.
pub record LoginCode ⦃p : Platform⦄ (email code : String) (codes : List VerificationCode)
    : Type 0 where
  pub row : VerificationCode
  pub mem : Memᴰ row codes
  pub by_email : row.email ≡ email
  pub by_code : row.code ≡ code
  pub by_type : row.type ≡ CodeType.login
  pub in_time : (t : ℕ) × (p.clock t ≤ row.expires_at)

-- The second factor that a user with a secret has shown.
abbrev pub FactorShown : ⦃p : Platform⦄ → User → LoginBody → List VerificationCode → Type 0
FactorShown ⦃p⦄ user body codes =
    (non_empty user.totp_secret ≡ none)
    ⊎ ((secret : String) × (non_empty user.totp_secret ≡ some secret)
        × (((token : String) × (non_empty body.totp_code ≡ some token)
              × ((t : ℕ) × (is_some (p.totp_validate t (create_totp user.email secret) token 1)
                    ≡ true)))
            ⊎ ((code : String) × (non_empty body.totp_code ≡ none)
                × (non_empty body.code ≡ some code)
                × LoginCode user.email code codes)))

module _ ⦃p : Platform⦄ (s : SoundTables p) (w : World) where
  second_factor-FactorShown :
      (user : UserIncludeRole) (body : LoginBody) {w' : World}
      → second_factor user body w ≡ (ok tt, w')
      → FactorShown user.user body w.codes × (w' ≡ record w { tick = w'.tick })
  unfolding second_factor verify_totp
  second_factor-FactorShown user body {w'} h = elim (Option-cases (non_empty user.totp_secret)) [
    | inl e ↦ (inl e, ground arith)
    | inr (secret, e) ↦ elim (Option-cases (non_empty body.totp_code)) [
      | inr (token, e₂) ↦ (inr (secret, e, inl (token, e₂, (w.tick, ground arith))), ground arith)
      | inl e₂ ↦ elim (Option-cases (non_empty body.code)) [
        | inl e₃ ↦ absurd (ground arith)
        | inr (code, e₃) ↦
            let r = validate_verification_code user.email code CodeType.login w in
            elim (Result-cases r.0) [
              | inr (x, q) ↦ absurd (ground arith)
              | inl (c, q) ↦
                  let (mem, by_email, by_code, by_type, in_time, left) =
                    validate-ok w user.email code CodeType.login s c {w' = r.1} (ground arith) in
                  (
                    inr (
                      secret,
                      e,
                      inr (
                        code,
                        e₂,
                        e₃,
                        record {
                          row = c;
                          mem = mem;
                          by_email = by_email;
                          by_code = by_code;
                          by_type = by_type;
                          in_time = (w.tick + 1, in_time);
                        },
                      ),
                    ),
                    ground arith,
                  )
            ]
      ]
    ]
  ]

-- Tokens were issued for a new session of a user who has shown a password and a second factor.
pub record IsLoggedIn ⦃p : Platform⦄ (body : LoginBody) (w w' : World) (tokens : Tokens)
    : Type 0 where
  pub user : User
  pub mem : Memᴰ user w.users
  pub by_email : user.email ≡ body.email
  pub alive : user.deleted_at ≡ none
  pub password : (t : ℕ) × (p.compare t body.password user.password ≡ ok true)
  pub factor : FactorShown user body w.codes
  pub device : Device
  -- no stored device had the id
  pub device_new : count (λ d. d.id == device.id) w.devices ≡ 0
  pub device_user : device.user_id ≡ user.id
  pub device_agent : device.user_agent ≡ body.user_agent
  pub device_ip : device.ip ≡ body.ip
  pub device_active : device.is_active ≡ true
  pub payload : AccessTokenPayloadCreate
  pub payload_user : payload.user_id ≡ user.id
  pub payload_device : payload.device_id ≡ device.id
  pub access : IsSigned p access_options payload tokens.access_token
  pub row : RefreshToken
  pub row_token : row.token ≡ tokens.refresh_token
  pub row_user : row.user_id ≡ user.id
  pub row_device : row.device_id ≡ device.id
  -- no stored row had the token
  pub unused : count (λ r. r.token === tokens.refresh_token) w.tokens ≡ 0
  pub left : w' ≡ record w {
    devices = w.devices ++ device ∷ [];
    tokens = w.tokens ++ row ∷ [];
    tick = w'.tick;
  }

module _ ⦃p : Platform⦄ (s : SoundTables p) (w : World) where
  -- Given sound tables: when login returns, a user of the address who is not deleted has shown the
  -- password and, where one is set up, a second factor; an active device with the client's address
  -- and agent and a refresh token for it were stored, the access token is for that user and
  -- device, and the other tables, the codes included, are as before.
  pub login-IsLoggedIn :
      (body : LoginBody) (tokens : Tokens) {w' : World}
      → login body w ≡ (ok tokens, w')
      → IsLoggedIn body w w' tokens
  unfolding login compare
  login-IsLoggedIn body tokens {w'} h =
      let (o, e₁, h₁) = step-ok (find_unique_user_include_role body.email w) h in
      let (full, e₂, h₂) = found-ok o _ _ _ h₁ in
      let w₁ = (find_unique_user_include_role body.email w).1 in
      let (by_email, alive, mem, q₁) =
        find_user_include-some s w body.email full {w' = w₁} (ground arith) in
      let (matched, e₃, h₃) = step-ok (compare body.password full.password w₁) h₂ in
      let (match_yes, h₄) = guard-ok (not matched) _ _ _ h₃ in
      let (u, e₅, h₅) = step-ok (second_factor full body _) h₄ in
      let (device, e₆, h₆) = step-ok (create_device _ _) h₅ in
      let w₂ = record w₁ { tick = w₁.tick + 1 } in
      let w₃ = (second_factor full body w₂).1 in
      let (shown, q₂) = second_factor-FactorShown s w₂ full body {w' = w₃} (ground arith) in
      let (made, apart, q₃) = create_device-ok s _ _ device e₆ in
      let i = generate_tokens-IsIssued s _ _ tokens h₆ in
      let q₄ = i.left in
      let same_codes : w₁.codes ≡ w.codes = ground arith in
      record {
        user = full.user;
        mem = mem;
        by_email = by_email;
        alive = alive;
        password = (w₁.tick, ground arith);
        factor = rw same_codes at shown;
        device = device;
        device_new = ground arith;
        device_user = made.user_id;
        device_agent = made.user_agent;
        device_ip = made.ip;
        device_active = made.active_given true refl;
        payload = _;
        payload_user = refl;
        payload_device = refl;
        access = i.access;
        row = i.row;
        row_token = i.row_token;
        row_user = i.row_user;
        row_device = i.row_device;
        unused = ground (arith, i.unused);
        left = ground arith;
      }
