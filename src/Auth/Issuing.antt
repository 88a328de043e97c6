-- ===== src/Auth/Issuing.antt =====
-- When `generateTokens` returns.
use capstone_home_care_be_mi.Common.{
  true, ◌&&◌, ℕ, ◌+◌, ◌*◌, ◌≡◌, ◌≤◌, ◌<◌, inl, inr, String, none, List, count, ◌===◌, arith,
  Bool-cases,
}
use capstone_home_care_be_mi.Data.{RefreshToken}
use capstone_home_care_be_mi.Errors.{ok}
use capstone_home_care_be_mi.Platform.{Platform, AccessTokenPayloadCreate, AccessTokenPayload}
use capstone_home_care_be_mi.Platform.Sound.{LiveTables}
use capstone_home_care_be_mi.World.{World, promise_all}
use capstone_home_care_be_mi.Services.{
  sign_access_token, sign_refresh_token, verify_refresh_token, access_options, refresh_options,
}
use capstone_home_care_be_mi.Repos.{has_user, has_device, create_refresh_token}
use capstone_home_care_be_mi.Auth.Bodies.{Tokens}
use capstone_home_care_be_mi.Auth.Service.{generate_tokens}

-- A refresh token verifies right after it was signed.
abbrev pub VerifiesFresh : ⦃p : Platform⦄ → Type 0
VerifiesFresh ⦃p⦄ =
    (t u : ℕ) (payload : AccessTokenPayloadCreate) (uuid : String)
    → t < u
    → u ≤ t + 3
    → (d : AccessTokenPayload) × (p.verify u (p.sign t payload uuid refresh_options)
          (p.config "REFRESH_TOKEN_SECRET")
        ≡ ok d)

-- No stored token is one that is signed from now on: each is signed over a new uuid.
abbrev pub SignsNew : ⦃p : Platform⦄ → World → Type 0
SignsNew ⦃p⦄ w =
    (t u : ℕ) (payload : AccessTokenPayloadCreate)
    → w.tick ≤ u
    → u < t
    → count (λ r. r.token === p.sign t payload (p.uuid u) refresh_options) w.tokens ≡ 0

module _ ⦃p : Platform⦄ (live : LiveTables p) (fresh : VerifiesFresh) (w : World)
    (new : SignsNew w) where
  stored :
      (t v : ℕ) (payload : AccessTokenPayloadCreate) (d : AccessTokenPayload)
      → has_user payload.user_id w ≡ true
      → has_device payload.device_id w ≡ true
      → w.tick ≤ v
      → v < t
      → (u : ℕ)
      → (a : RefreshToken × List RefreshToken) × (p.tokens.create u
            (has_user payload.user_id w && has_device payload.device_id w)
            (record {
              token = p.sign t payload (p.uuid v) refresh_options;
              user_id = payload.user_id;
              device_id = payload.device_id;
              expires_at = d.exp * 1000;
            })
            w.tokens
          ≡ ok a)
  stored t v payload d user device later before u =
      let yes : (has_user payload.user_id w && has_device payload.device_id w) ≡ true =
        ground (arith, user, device) in
      rw yes (live.tokens.create-live u _ w.tokens tt (new t v payload later before))

  pub generate_tokens_returns :
      (payload : AccessTokenPayloadCreate)
      → has_user payload.user_id w ≡ true
      → has_device payload.device_id w ≡ true
      → (tokens : Tokens) × ((generate_tokens payload w).0 ≡ ok tokens)
  unfolding generate_tokens promise_all sign_access_token sign_refresh_token verify_refresh_token
      create_refresh_token
  generate_tokens_returns payload user device =
      let access_payload = record payload { staff_provider_id = none } in
      elim (Bool-cases (p.second_first w.tick)) [
        | inr e ↦
            let t = w.tick + 1 + 1 + 1 in
            let uuid = p.uuid (w.tick + 1 + 1) in
            let token = p.sign t payload uuid refresh_options in
            let (d, e₁) = fresh t (t + 1) payload uuid (omega arith) (omega arith) in
            let (a, e₂) =
              stored t (w.tick + 1 + 1) payload d user device (omega arith) (omega arith)
                (t + 1 + 1) in
            (
              record {
                access_token = p.sign (w.tick + 1) access_payload (p.uuid w.tick) access_options;
                refresh_token = token;
              },
              ground arith,
            )
        | inl e ↦
            let t = w.tick + 1 in
            let uuid = p.uuid w.tick in
            let token = p.sign t payload uuid refresh_options in
            let (d, e₁) = fresh t (t + 1 + 1 + 1) payload uuid (omega arith) (omega arith) in
            let (a, e₂) =
              stored t w.tick payload d user device (omega arith) (omega arith)
                (t + 1 + 1 + 1 + 1) in
            (
              record {
                access_token = p.sign (t + 1 + 1) access_payload (p.uuid (t + 1)) access_options;
                refresh_token = token;
              },
              ground arith,
            )
      ]
