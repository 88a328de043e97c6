-- ===== src/System/Sessions.antt =====
-- Consistent tables, and the requests of auth.service.ts that open, exchange and close sessions.
use capstone_home_care_be_mi.Common.{
  ◌&&◌, ℕ, ◌+◌, ◌*◌, ◌≡◌, refl, String, some, none, true, not, ◌==◌, ◌===◌, arith, non_zero,
  Has-added, Has-map, All-mem,
}
use capstone_home_care_be_mi.Data.{Device, NewDevice, NewRefreshToken}
use capstone_home_care_be_mi.Errors.{
  is_not_found_prisma_error, is_http_exception, ok, rpc, email_not_found, invalid_password,
  refresh_token_revoked,
}
use capstone_home_care_be_mi.Platform.{Platform, AccessTokenPayloadCreate}
use capstone_home_care_be_mi.Platform.Sound.{SoundTables}
use capstone_home_care_be_mi.World.{World, promise_all, promise_all_three}
use capstone_home_care_be_mi.World.Keeps.{
  keeps-bind, keeps-found, keeps-guard, keeps-promise_all, keeps-promise_all_three, keeps-catch,
  keeps-either, keeps-write,
}
use capstone_home_care_be_mi.Services.{
  sign_access_token, sign_refresh_token, verify_refresh_token, compare,
}
use capstone_home_care_be_mi.Repos.{
  has_user, has_device, TokenIncludeUser, DeviceUpdate, mark_device, from_client, deactivate,
  create_refresh_token, create_device, update_device, delete_refresh_token,
  find_unique_user_include_role, find_unique_refresh_token_include_user_role,
}
use capstone_home_care_be_mi.Repos.FindLaws.{find_token_include-some}
use capstone_home_care_be_mi.Repos.Laws.{create_device-ok}
use capstone_home_care_be_mi.Auth.{
  Tokens, LoginBody, RefreshTokenBody, generate_tokens, second_factor, login, try_refresh_token,
  refresh_token, try_logout, logout, logout_error, refresh_error,
}
use capstone_home_care_be_mi.System.Consistent.{IsConsistent, HasDevice}
use capstone_home_care_be_mi.System.Tables.{
  create_device-IsConsistent, update_device-IsConsistent, create_refresh_token-IsConsistent,
  delete_refresh_token-IsConsistent,
}
use capstone_home_care_be_mi.System.Reads.{
  find_unique_user_include_role-IsConsistent,
  find_unique_refresh_token_include_user_role-IsConsistent, second_factor-IsConsistent,
}

-- Consistent tables that hold a device.
pub record Holds (id : ℕ) (w : World) : Type 0 where
  pub consistent : IsConsistent w
  pub device : HasDevice w.devices id

Holds-tick : (id : ℕ) (w : World) (t : ℕ) → Holds id w → Holds id (record w { tick = t })
Holds-tick id w t h = record {
  consistent = record { at = h.consistent.at; remembers = h.consistent.remembers };
  device = h.device;
}

module _ ⦃p : Platform⦄ (s : SoundTables p) (id : ℕ) (w : World) (h : Holds id w) where
  pub update_device-Holds :
      (other : ℕ) (update : DeviceUpdate) → Holds id (update_device other update w).1
  unfolding update_device
  update_device-Holds other update = record {
    consistent = update_device-IsConsistent s w h.consistent other update;
    device =
        keeps-write (λ v. HasDevice v.devices id) (λ v rows. record v { devices = rows })
          (λ v.
            p.devices.update v.tick (λ d. d.id == other) (mark_device update (p.clock v.tick))
              v.devices)
          w h.device
          λ d rows e.
            (let (left, _) =
                s.devices.update-ok w.tick (λ d. d.id == other)
                  (mark_device update (p.clock w.tick)) w.devices d rows e in
              rw left (Has-map (λ d. d.id == id) _ w.devices (λ d. ground arith) h.device));
  }

  pub delete_refresh_token-Holds : (token : String) → Holds id (delete_refresh_token token w).1
  unfolding delete_refresh_token
  delete_refresh_token-Holds token = record {
    consistent = delete_refresh_token-IsConsistent s w h.consistent token;
    device =
        keeps-write (λ v. HasDevice v.devices id) (λ v rows. record v { tokens = rows })
          (λ v. p.tokens.delete v.tick (λ r. r.token === token) v.tokens) w h.device
          λ _ _ _. h.device;
  }

  create_refresh_token-Holds :
      (n : NewRefreshToken) → n.device_id ≡ id → Holds id (create_refresh_token n w).1
  unfolding create_refresh_token
  create_refresh_token-Holds n same = record {
    consistent = create_refresh_token-IsConsistent s w h.consistent n (rw same h.device);
    device =
        keeps-write (λ v. HasDevice v.devices id) (λ v rows. record v { tokens = rows })
          (λ v.
            p.tokens.create v.tick (has_user n.user_id v && has_device n.device_id v) n v.tokens)
          w h.device λ _ _ _. h.device;
  }

module _ ⦃p : Platform⦄ (s : SoundTables p) (w : World) where
  pub generate_tokens-Holds :
      (payload : AccessTokenPayloadCreate)
      → Holds payload.device_id w
      → Holds payload.device_id (generate_tokens payload w).1
  unfolding generate_tokens sign_access_token sign_refresh_token verify_refresh_token
  generate_tokens-Holds payload h =
      let I = Holds payload.device_id in
      let signed =
        keeps-promise_all I p (sign_access_token (record payload { staff_provider_id = none }))
          (sign_refresh_token payload) w (λ v j. Holds-tick payload.device_id v (v.tick + 1 + 1) j)
          (λ v j. Holds-tick payload.device_id v (v.tick + 1 + 1) j) h in
      keeps-bind I (promise_all p _ _ w) _ signed λ pair _.
        (let w₁ =
            (promise_all p (sign_access_token (record payload { staff_provider_id = none }))
              (sign_refresh_token payload) w).1 in
          let verified = Holds-tick payload.device_id w₁ (w₁.tick + 1) signed in
          keeps-bind I (verify_refresh_token pair.1 w₁) _ verified λ decoded _.
            (let n : NewRefreshToken = record {
              token = pair.1;
              user_id = payload.user_id;
              device_id = payload.device_id;
              expires_at = decoded.exp * 1000;
            } in
              let stored = create_refresh_token-Holds s payload.device_id _ verified n refl in
              keeps-bind I (create_refresh_token n (record w₁ { tick = w₁.tick + 1 })) _ stored
                λ _ _. stored))

module _ ⦃p : Platform⦄ (s : SoundTables p) (w : World) (i : IsConsistent w) where
  -- A device that was just stored, in tables that are still consistent.
  pub create_device-Holds :
      (n : NewDevice) (d : Device)
      → create_device n w ≡ (ok d, (create_device n w).1)
      → Holds d.id (create_device n w).1
  create_device-Holds n d e =
      let (_, _, q) = create_device-ok s w n d e in
      record {
        consistent = create_device-IsConsistent s w i n;
        device = rw q (Has-added (λ x. x.id == d.id) w.devices d (ground arith));
      }

module _ ⦃p : Platform⦄ (s : SoundTables p) (w : World) (i : IsConsistent w) where
  pub login-IsConsistent : (body : LoginBody) → IsConsistent (login body w).1
  unfolding login compare
  login-IsConsistent body =
      let i₁ = find_unique_user_include_role-IsConsistent w i body.email in
      let w₁ = (find_unique_user_include_role body.email w).1 in
      keeps-bind IsConsistent (find_unique_user_include_role body.email w) _ i₁ λ found _.
        keeps-found IsConsistent found (rpc email_not_found) _ _ i₁ λ user _.
          (let i₂ : IsConsistent (record w₁ { tick = w₁.tick + 1 }) = record {
            at = i₁.at;
            remembers = i₁.remembers;
          } in
            keeps-bind IsConsistent (compare body.password user.password w₁) _ i₂ λ match _.
              keeps-guard IsConsistent (not match) (rpc invalid_password) _ _ i₂ λ _.
                (let i₃ = second_factor-IsConsistent _ i₂ user body in
                  keeps-bind IsConsistent (second_factor user body _) _ i₃ λ _ _.
                    (let w₃ = (second_factor user body (record w₁ { tick = w₁.tick + 1 })).1 in
                      let w₄ : World = record w₃ { tick = w₃.tick + 1 } in
                      let i₄ : IsConsistent w₄ = record { at = i₃.at; remembers = i₃.remembers } in
                      let n : NewDevice = record {
                        user_id = user.id;
                        user_agent = body.user_agent;
                        ip = body.ip;
                        is_active = some true;
                        last_active = some (p.clock w₃.tick);
                      } in
                      keeps-bind IsConsistent (create_device n w₄) _
                        (create_device-IsConsistent s w₄ i₄ n)
                        λ d e.
                          (generate_tokens-Holds s _
                            (record {
                              user_id = user.id;
                              device_id = d.id;
                              roles = user.roles;
                              provider_id = non_zero user.service_provider;
                              staff_provider_id = non_zero user.staff;
                            })
                            (create_device-Holds s w₄ i₄ n d e)).consistent)))

  -- The row that `refresh_token` finds belongs to a device that is stored.
  found_device :
      (token : String) (row : TokenIncludeUser)
      → find_unique_refresh_token_include_user_role token w
        ≡ (ok (some row), (find_unique_refresh_token_include_user_role token w).1)
      → Holds row.device_id (find_unique_refresh_token_include_user_role token w).1
  found_device token row e =
      let (_, mem, q) = find_token_include-some s w token row e in
      let owned = All-mem (λ r. HasDevice w.devices r.device_id) w.tokens i.at.token_devices mem in
      record {
        consistent = find_unique_refresh_token_include_user_role-IsConsistent w i token;
        device = rw q owned;
      }

  try_logout-IsConsistent : (token : String) → IsConsistent (try_logout token w).1
  unfolding try_logout verify_refresh_token
  try_logout-IsConsistent token =
      let w₁ : World = record w { tick = w.tick + 1 } in
      let i₁ : IsConsistent w₁ = record { at = i.at; remembers = i.remembers } in
      keeps-bind IsConsistent (verify_refresh_token token w) _ i₁ λ _ _.
        (let i₂ = delete_refresh_token-IsConsistent s w₁ i₁ token in
          keeps-bind IsConsistent (delete_refresh_token token w₁) _ i₂ λ held _.
            (let i₃ = update_device-IsConsistent s _ i₂ held.device_id deactivate in
              keeps-bind IsConsistent
                (update_device held.device_id deactivate (delete_refresh_token token w₁).1) _ i₃
                λ _ _. i₃))

module _ ⦃p : Platform⦄ (s : SoundTables p) (w : World) (i : IsConsistent w) where
  try_refresh_token-IsConsistent :
      (body : RefreshTokenBody) → IsConsistent (try_refresh_token body w).1
  unfolding try_refresh_token verify_refresh_token
  try_refresh_token-IsConsistent body =
      let w₁ : World = record w { tick = w.tick + 1 } in
      let i₁ : IsConsistent w₁ = record { at = i.at; remembers = i.remembers } in
      keeps-bind IsConsistent (verify_refresh_token body.refresh_token w) _ i₁ λ payload _.
        (let found = find_unique_refresh_token_include_user_role body.refresh_token in
          let i₂ =
            find_unique_refresh_token_include_user_role-IsConsistent w₁ i₁ body.refresh_token in
          keeps-bind IsConsistent (found w₁) _ i₂ λ o e.
            keeps-found IsConsistent o (rpc refresh_token_revoked) _ _ i₂ λ row same.
              (let I = Holds row.device_id in
                let held = found_device s w₁ i₁ body.refresh_token row (rw same at e) in
                let kept =
                  keeps-promise_all_three I p _ _ _ (found w₁).1
                    (λ v j.
                      update_device-Holds s row.device_id v j row.device_id
                        (from_client body.ip body.user_agent))
                    (λ v j. delete_refresh_token-Holds s row.device_id v j body.refresh_token)
                    (λ v j.
                      generate_tokens-Holds s v
                        (record {
                          user_id = payload.user_id;
                          device_id = row.device_id;
                          roles = row.roles;
                          provider_id = none;
                          staff_provider_id = none;
                        })
                        j)
                    held in
                keeps-bind IsConsistent (promise_all_three p _ _ _ (found w₁).1) _ kept.consistent
                  λ _ _. kept.consistent))

module _ ⦃p : Platform⦄ (s : SoundTables p) (w : World) (i : IsConsistent w) where
  pub logout-IsConsistent : (token : String) → IsConsistent (logout token w).1
  unfolding logout
  logout-IsConsistent token =
      keeps-catch IsConsistent (try_logout token) logout_error w
        (try_logout-IsConsistent s w i token)
        λ e v j. keeps-either IsConsistent (Unit {0}) (is_not_found_prisma_error e) _ _ v j

  pub refresh_token-IsConsistent : (body : RefreshTokenBody) → IsConsistent (refresh_token body w).1
  unfolding refresh_token
  refresh_token-IsConsistent body =
      keeps-catch IsConsistent (try_refresh_token body) refresh_error w
        (try_refresh_token-IsConsistent s w i body)
        λ e v j. keeps-either IsConsistent Tokens (is_http_exception e) _ _ v j
