-- ===== src/Auth/Sessions.antt =====
-- `generateTokens`, `refreshToken` and `logout`: what is signed, which refresh tokens are stored,
-- and how a token is used up.
use capstone_home_care_be_mi.Common.{
  ℕ, ◌+◌, ◌≡◌, ◌∙◌, String, none, [], ◌∷◌, ◌++◌, count, ◌===◌, arith, inl, inr,
}
use capstone_home_care_be_mi.Data.{RefreshToken}
use capstone_home_care_be_mi.Errors.{ok}
use capstone_home_care_be_mi.Platform.{Platform, AccessTokenPayloadCreate, SignOptions}
use capstone_home_care_be_mi.Platform.Sound.{SoundTables}
use capstone_home_care_be_mi.World.{World, promise_all}
use capstone_home_care_be_mi.World.Laws.{step-ok, promise_all-ok}
use capstone_home_care_be_mi.Services.{
  sign_access_token, sign_refresh_token, verify_refresh_token, access_options, refresh_options,
}
use capstone_home_care_be_mi.Repos.{create_refresh_token}
use capstone_home_care_be_mi.Repos.Laws.{create_refresh_token-ok}
use capstone_home_care_be_mi.Auth.Bodies.{Tokens}
use capstone_home_care_be_mi.Auth.Service.{generate_tokens}

-- A text that was signed from a payload under some options, at some time and with some uuid.
abbrev pub IsSigned : Platform → SignOptions → AccessTokenPayloadCreate → String → Type 0
IsSigned p options payload token =
    (t : ℕ) × (uuid : String) × (token ≡ p.sign t payload uuid options)

module _ ⦃p : Platform⦄ where
  sign_access_token-ok :
      (w : World) (payload : AccessTokenPayloadCreate) (token : String) {v : World}
      → sign_access_token payload w ≡ (ok token, v)
      → IsSigned p access_options payload token × (v ≡ record w { tick = w.tick + 1 + 1 })
  unfolding sign_access_token
  sign_access_token-ok w payload token h = ((w.tick + 1, p.uuid w.tick, ground arith), ground arith)

  sign_refresh_token-ok :
      (w : World) (payload : AccessTokenPayloadCreate) (token : String) {v : World}
      → sign_refresh_token payload w ≡ (ok token, v)
      → IsSigned p refresh_options payload token × (v ≡ record w { tick = w.tick + 1 + 1 })
  unfolding sign_refresh_token
  sign_refresh_token-ok w payload token h =
      ((w.tick + 1, p.uuid w.tick, ground arith), ground arith)

  -- The two signatures, in whichever order they are made.
  IsSigned-ok :
      (w : World) (a b : AccessTokenPayloadCreate) (x y : String) {v : World}
      → promise_all p (sign_access_token a) (sign_refresh_token b) w ≡ (ok (x, y), v)
      → IsSigned p access_options a x
        × IsSigned p refresh_options b y
        × (v ≡ record w { tick = v.tick })
  IsSigned-ok w a b x y {v} h =
      elim (promise_all-ok p (sign_access_token a) (sign_refresh_token b) w x y v h) [
        | inl (w₁, e₁, e₂) ↦
            let (sa, q₁) = sign_access_token-ok w a x e₁ in
            let (sb, q₂) = sign_refresh_token-ok w₁ b y e₂ in (sa, sb, ground arith)
        | inr (w₁, e₁, e₂) ↦
            let (sb, q₁) = sign_refresh_token-ok w b y e₁ in
            let (sa, q₂) = sign_access_token-ok w₁ a x e₂ in (sa, sb, ground arith)
      ]

-- The tokens are signed from the payload, the access token without the provider of a staff member;
-- the refresh token is new, and is stored with the user, the device and the end of its life.
pub record IsIssued ⦃p : Platform⦄ (payload : AccessTokenPayloadCreate) (w w' : World)
    (tokens : Tokens) : Type 0 where
  pub access :
      IsSigned p access_options (record payload { staff_provider_id = none }) tokens.access_token
  pub refresh : IsSigned p refresh_options payload tokens.refresh_token
  pub row : RefreshToken
  pub row_token : row.token ≡ tokens.refresh_token
  pub row_user : row.user_id ≡ payload.user_id
  pub row_device : row.device_id ≡ payload.device_id
  pub unused : count (λ r. r.token === tokens.refresh_token) w.tokens ≡ 0
  pub left : w' ≡ record w { tokens = w.tokens ++ row ∷ []; tick = w'.tick }

module _ ⦃p : Platform⦄ (s : SoundTables p) (w : World) where
  pub generate_tokens-IsIssued :
      (payload : AccessTokenPayloadCreate) (tokens : Tokens) {w' : World}
      → generate_tokens payload w ≡ (ok tokens, w')
      → IsIssued payload w w' tokens
  unfolding generate_tokens verify_refresh_token
  generate_tokens-IsIssued payload tokens h =
      let (pair, e₁, h₁) = step-ok (promise_all p _ _ w) h in
      let (decoded, e₂, h₂) = step-ok (verify_refresh_token pair.1 _) h₁ in
      let (row, e₃, h₃) = step-ok (create_refresh_token _ _) h₂ in
      let (sa, sb, q₁) = IsSigned-ok w _ _ pair.0 pair.1 e₁ in
      let (made, unused, q₃) = create_refresh_token-ok s _ _ row e₃ in
      let same_access : pair.0 ≡ tokens.access_token = ground arith in
      let same_refresh : pair.1 ≡ tokens.refresh_token = ground arith in
      record {
        access = rw (← same_access) sa;
        refresh = rw (← same_refresh) sb;
        row = row;
        row_token = made.token ∙ same_refresh;
        row_user = made.user_id;
        row_device = made.device_id;
        unused = rw (← same_refresh) (ground arith);
        left = ground arith;
      }
