-- ===== src/Auth/Revocation.antt =====
-- `refreshToken` on a token that is no more, `logout`, and that a token used up by one of them is
-- refused afterwards.
use capstone_home_care_be_mi.Common.{
  ℕ, false, ◌+◌, ◌≡◌, ◌≢◌, ap, ◌∙◌, String, not, List, [], ◌∷◌, map, Memᴰ, count-mem, keep, count,
  count-append, count-keep_covered, ◌==◌, ◌===◌, if◌then◌else◌, arith, eq_iff, inl, inr,
}
use capstone_home_care_be_mi.Data.{RefreshToken}
use capstone_home_care_be_mi.Errors.{Error, ok, err, rpc, AuthError, plain_unauthorized}
use capstone_home_care_be_mi.Platform.{Platform, AccessTokenPayload, find_cases}
use capstone_home_care_be_mi.Platform.Sound.{SoundTables, LiveTables}
use capstone_home_care_be_mi.World.{World}
use capstone_home_care_be_mi.World.Laws.{step-ok, catch-ok}
use capstone_home_care_be_mi.Services.{verify_refresh_token}
use capstone_home_care_be_mi.Repos.{
  deactivate, mark_device, update_device, delete_refresh_token,
  find_unique_refresh_token_include_user_role,
}
use capstone_home_care_be_mi.Repos.Laws.{update_device-ok, delete_refresh_token-ok}
use capstone_home_care_be_mi.Auth.Bodies.{Tokens, RefreshTokenBody}
use capstone_home_care_be_mi.Auth.Service.{
  logout_error, try_refresh_token, refresh_token, try_logout, logout,
}
use capstone_home_care_be_mi.Auth.Rotated.{swapped}
use capstone_home_care_be_mi.Auth.Rotation.{refresh_token-IsRotated}

-- No stored row has the token.
abbrev pub IsGone : String → World → Type 0
IsGone token w = count (λ r. r.token === token) w.tokens ≡ 0

-- What was deleted is gone.
IsGone-keep :
    (token : String) (tokens : List RefreshToken)
    → count (λ r. r.token === token) (keep (λ r. not (r.token === token)) tokens) ≡ 0
IsGone-keep token tokens =
    count-keep_covered (λ r. r.token === token) (λ r. r.token === token) tokens (λ x h. h)

IsGone-swapped :
    (token : String) (row : RefreshToken) (tokens : List RefreshToken)
    → row.token ≢ token
    → count (λ r. r.token === token) (swapped token row tokens) ≡ 0
IsGone-swapped token row tokens other = ground (
  arith,
  count-append (λ r. r.token === token) (keep (λ r. not (r.token === token)) tokens) (row ∷ []),
  IsGone-keep token tokens,
  eq_iff row.token token,
)

module _ ⦃p : Platform⦄ (s : SoundTables p) (live : LiveTables p) (w : World) where
  -- Given sound and live tables: a refresh token that still verifies but is stored no more is
  -- refused with a plain 401, and the tables stay.
  pub refresh_token-gone :
      (body : RefreshTokenBody) (d : AccessTokenPayload)
      → (verify_refresh_token body.refresh_token w).0 ≡ ok d
      → IsGone body.refresh_token w
      → refresh_token body w ≡ (err plain_unauthorized, record w { tick = w.tick + 1 + 1 })
  unfolding refresh_token try_refresh_token verify_refresh_token
      find_unique_refresh_token_include_user_role
  refresh_token-gone body d h gone =
      elim (find_cases s.tokens live.tokens (w.tick + 1) (λ r. r.token === body.refresh_token)
        w.tokens) [
          | inl (e, _) ↦ ground arith
          | inr (r, _, hit, mem) ↦
              let never =
                count-mem (λ (r : RefreshToken). r.token === body.refresh_token) w.tokens gone
                  mem in
              absurd (ground arith)
        ]

module _ ⦃p : Platform⦄ where
  -- RefreshToken throws no RpcException, RefreshTokenRevokedException included.
  pub refresh_token-ne-rpc :
      (body : RefreshTokenBody) (w : World) (a : AuthError) → (refresh_token body w).0 ≢ err (rpc a)
  unfolding refresh_token
  refresh_token-ne-rpc body w a h = ground arith

-- What `logout` leaves: the row of the token deleted, and its device marked inactive at the time
-- of the update.
abbrev pub logged_out : String → RefreshToken → ℕ → World → World
logged_out token held now w = record w {
  tokens = keep (λ r. not (r.token === token)) w.tokens;
  devices =
      map
        (λ d.
          if d.id == held.device_id then record d { is_active = false; last_active = now } else d)
        w.devices;
  tick = w.tick + 1 + 1 + 1;
}

pub record IsLoggedOut (token : String) (w w' : World) : Type 0 where
  pub held : RefreshToken
  pub mem : Memᴰ held w.tokens
  pub held_token : held.token ≡ token
  pub now : ℕ
  pub left : w' ≡ logged_out token held now w

module _ ⦃p : Platform⦄ (s : SoundTables p) (w : World) where
  -- Given sound tables: when logout returns, the token was stored and is so no more, its device is
  -- inactive and was last active at some time, and no other column or table has changed.
  pub logout-IsLoggedOut :
      (token : String) {w' : World} → logout token w ≡ (ok tt, w') → IsLoggedOut token w w'
  unfolding logout try_logout verify_refresh_token
  logout-IsLoggedOut token {w'} h =
      let run = catch-ok (try_logout token) logout_error w tt w' (λ e v. never_ok e v) h in
      let (d, e₁, h₁) = step-ok (verify_refresh_token token w) run in
      let (held, e₂, h₂) = step-ok (delete_refresh_token token _) h₁ in
      let (dev, e₃, h₃) = step-ok (update_device held.device_id deactivate _) h₂ in
      let (same, mem, q₂) = delete_refresh_token-ok s _ token held e₂ in
      let q₃ = update_device-ok s _ held.device_id deactivate dev e₃ in
      record {
        held = held;
        mem = mem;
        held_token = same;
        now = p.clock (w.tick + 1 + 1);
        left = ground arith;
      }
    where
      never_ok : (e : Error) (v : World) → (logout_error {A = Unit {0}} e v).0 ≢ ok tt
      never_ok e v = ground arith

module _ ⦃p : Platform⦄ (s : SoundTables p) (live : LiveTables p) (w : World) where
  -- Given sound and live tables: a refresh token that logout was given, and that still verifies,
  -- buys no new tokens afterwards.
  pub refresh_token-logout :
      (body : RefreshTokenBody) (d : AccessTokenPayload) {w' : World}
      → logout body.refresh_token w ≡ (ok tt, w')
      → (verify_refresh_token body.refresh_token w').0 ≡ ok d
      → (refresh_token body w').0 ≡ err plain_unauthorized
  refresh_token-logout body d {w'} h says =
      let out = logout-IsLoggedOut s w body.refresh_token h in
      let gone : IsGone body.refresh_token w' =
        ap (λ (v : World). count (λ r. r.token === body.refresh_token) v.tokens) out.left
        ∙ IsGone-keep body.refresh_token w.tokens in
      ap (λ r. r.0) (refresh_token-gone s live w' body d says gone)

  -- Given sound and live tables: a refresh token that was exchanged for another one, and that
  -- still verifies, cannot be exchanged again.
  pub refresh_token-once :
      (body : RefreshTokenBody) (tokens : Tokens) (d : AccessTokenPayload) {w' : World}
      → refresh_token body w ≡ (ok tokens, w')
      → tokens.refresh_token ≢ body.refresh_token
      → (verify_refresh_token body.refresh_token w').0 ≡ ok d
      → (refresh_token body w').0 ≡ err plain_unauthorized
  refresh_token-once body tokens d {w'} h other says =
      let r = refresh_token-IsRotated s w body tokens h other in
      let new : r.row.token ≢ body.refresh_token = rw r.row_token other in
      let gone : IsGone body.refresh_token w' =
        ap (count (λ r. r.token === body.refresh_token)) r.tokens_left
        ∙ IsGone-swapped body.refresh_token r.row w.tokens new in
      ap (λ r. r.0) (refresh_token-gone s live w' body d says gone)

module _ ⦃p : Platform⦄ (s : SoundTables p) (live : LiveTables p) (w : World) where
  -- Given sound and live tables: logout returns for a token that verifies and is stored, where the
  -- devices of the rows that hold it are stored.
  pub logout_returns :
      (token : String) (d : AccessTokenPayload)
      → (verify_refresh_token token w).0 ≡ ok d
      → count (λ r. r.token === token) w.tokens ≢ 0
      → ((r : RefreshToken)
          → Memᴰ r w.tokens
          → r.token ≡ token
          → count (λ x. x.id == r.device_id) w.devices ≢ 0)
      → (logout token w).0 ≡ ok tt
  unfolding logout try_logout verify_refresh_token delete_refresh_token update_device
  logout_returns token d says stored owned =
      let test = λ (r : RefreshToken). r.token === token in
      let (a, e₁) = live.tokens.delete-live (w.tick + 1) test w.tokens stored in
      let (hit, mem, _) = s.tokens.delete-ok (w.tick + 1) test w.tokens a.0 a.1 e₁ in
      let same : a.0.token ≡ token = ground (arith, eq_iff a.0.token token) in
      let (b, e₂) =
        live.devices.update-live (w.tick + 1 + 1) (λ x. x.id == a.0.device_id)
          (mark_device deactivate (p.clock (w.tick + 1 + 1))) w.devices (owned a.0 mem same) in
      ground arith
