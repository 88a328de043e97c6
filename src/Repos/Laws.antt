-- ===== src/Repos/Laws.antt =====
-- What a call of a repository has done when it returned: the rows found, and the tables left.
use capstone_home_care_be_mi.Common.{
  ℕ, ◌+◌, ◌≡◌, String, true, not, some, none, [], ◌∷◌, ◌++◌, map, Memᴰ, keep, count, ◌&&◌, ◌==◌,
  ◌===◌, is_some, if◌then◌else◌, arith, eq_iff,
}
use capstone_home_care_be_mi.Data.{
  User, NewUser, Profile, Device, NewDevice, RefreshToken, NewRefreshToken, VerificationCode,
  CodeType, ServiceProvider, NewServiceProvider,
}
use capstone_home_care_be_mi.Errors.{ok}
use capstone_home_care_be_mi.Platform.{
  Platform, MadeUser, MadeToken, MadeDevice, MadeProvider, user_clash, token_clash, provider_clash,
}
use capstone_home_care_be_mi.Platform.Sound.{SoundTables}
use capstone_home_care_be_mi.World.{World}
use capstone_home_care_be_mi.World.Laws.{step-ok, rows-ok}
use capstone_home_care_be_mi.Repos.{
  has_user, has_device, has_roles, insert_user, insert_profile, create_user,
  find_unique_verification_code, create_refresh_token, create_device, update_device,
  delete_refresh_token, delete_verification_code, where_code, mark_device, DeviceUpdate,
  find_unique_user, update_password, create_service_provider,
}

module _ ⦃p : Platform⦄ (s : SoundTables p) (w : World) where
  pub find_code-some :
      (email code : String) (type : CodeType) (c : VerificationCode) {w' : World}
      → find_unique_verification_code email type code w ≡ (ok (some c), w')
      → (where_code email type code c ≡ true)
        × Memᴰ c w.codes
        × (w' ≡ record w { tick = w.tick + 1 })
  unfolding find_unique_verification_code
  find_code-some email code type c h =
      let (p, q) = s.codes.find-some w.tick (where_code email type code) w.codes c (ground arith) in
      (p, q, ground arith)

  pub find_user-some :
      (email : String) (u : User) {w' : World}
      → find_unique_user email w ≡ (ok (some u), w')
      → (u.email ≡ email)
        × (u.deleted_at ≡ none)
        × Memᴰ u w.users
        × (w' ≡ record w { tick = w.tick + 1 })
  unfolding find_unique_user
  find_user-some email u h =
      let test = λ (x : User). x.email === email && not (is_some x.deleted_at) in
      let (p, q) = s.users.find-some w.tick test w.users u (ground arith) in
      (ground (arith, eq_iff u.email email), ground arith, q, ground arith)

  pub insert_user-ok :
      (n : NewUser) (u : User) {w' : World}
      → insert_user n w ≡ (ok u, w')
      → MadeUser n u
        × (count (user_clash n) w.users ≡ 0)
        × (count (λ y. y.id == u.id) w.users ≡ 0)
        × (w' ≡ record w { users = w.users ++ u ∷ []; tick = w.tick + 1 })
  unfolding insert_user
  insert_user-ok n u h =
      let (rows, e, q) = rows-ok (p.users.create w.tick (has_roles n.role_ids w) n w.users) _ _ h in
      let (made, added, unused, fresh) =
        s.users.create-ok w.tick (has_roles n.role_ids w) n w.users u rows e in
      (made, unused, fresh, ground arith)

  insert_profile-ok :
      (id : ℕ) (x : Profile) {w' : World}
      → insert_profile id w ≡ (ok x, w')
      → (x.user_id ≡ id) × (w' ≡ record w { profiles = w.profiles ++ x ∷ []; tick = w.tick + 1 })
  unfolding insert_profile
  insert_profile-ok id x h =
      let (rows, e, q) = rows-ok (p.profiles.create w.tick (has_user id w) id w.profiles) _ _ h in
      let (mine, added, _, _) =
        s.profiles.create-ok w.tick (has_user id w) id w.profiles x rows e in
      (mine, ground arith)

  pub create_refresh_token-ok :
      (n : NewRefreshToken) (r : RefreshToken) {w' : World}
      → create_refresh_token n w ≡ (ok r, w')
      → MadeToken n r
        × (count (token_clash n) w.tokens ≡ 0)
        × (w' ≡ record w { tokens = w.tokens ++ r ∷ []; tick = w.tick + 1 })
  unfolding create_refresh_token
  create_refresh_token-ok n r h =
      let (rows, e, q) =
        rows-ok
          (p.tokens.create w.tick (has_user n.user_id w && has_device n.device_id w) n w.tokens) _ _
          h in
      let (made, added, unused, _) =
        s.tokens.create-ok w.tick (has_user n.user_id w && has_device n.device_id w) n w.tokens r
          rows e in
      (made, unused, ground arith)

  pub create_device-ok :
      (n : NewDevice) (d : Device) {w' : World}
      → create_device n w ≡ (ok d, w')
      → MadeDevice n d
        × (count (λ y. y.id == d.id) w.devices ≡ 0)
        × (w' ≡ record w { devices = w.devices ++ d ∷ []; tick = w.tick + 1 })
  unfolding create_device
  create_device-ok n d h =
      let (rows, e, q) =
        rows-ok (p.devices.create w.tick (has_user n.user_id w) n w.devices) _ _ h in
      let (made, added, _, fresh) =
        s.devices.create-ok w.tick (has_user n.user_id w) n w.devices d rows e in
      (made, fresh, ground arith)

  pub create_service_provider-ok :
      (n : NewServiceProvider) {w' : World}
      → create_service_provider n w ≡ (ok tt, w')
      → (x : ServiceProvider) × MadeProvider n x
        × (count (provider_clash n) w.providers ≡ 0)
        × (w' ≡ record w { providers = w.providers ++ x ∷ []; tick = w.tick + 1 })
  unfolding create_service_provider
  create_service_provider-ok n h =
      let (x, e₁, h₁) = step-ok _ h in
      let (rows, e, q) =
        rows-ok (p.providers.create w.tick (has_user n.user_id w) n w.providers) _ _ e₁ in
      let (made, added, unused, _) =
        s.providers.create-ok w.tick (has_user n.user_id w) n w.providers x rows e in
      (x, made, unused, ground arith)

  pub update_device-ok :
      (id : ℕ) (update : DeviceUpdate) (d : Device) {w' : World}
      → update_device id update w ≡ (ok d, w')
      → w' ≡ record w {
        devices =
            map (λ x. if x.id == id then mark_device update (p.clock w.tick) x else x) w.devices;
        tick = w.tick + 1;
      }
  unfolding update_device
  update_device-ok id update d h =
      let (rows, e, q) =
        rows-ok
          (p.devices.update w.tick (λ x. x.id == id) (mark_device update (p.clock w.tick))
            w.devices)
          _ _ h in
      let (changed, _) =
        s.devices.update-ok w.tick (λ x. x.id == id) (mark_device update (p.clock w.tick)) w.devices
          d rows e in
      ground arith

  pub update_password-ok :
      (id : ℕ) (hashed : String) (u : User) {w' : World}
      → update_password id hashed w ≡ (ok u, w')
      → (w' ≡ record w {
        users =
            map
              (λ x.
                if x.id == id && not (is_some x.deleted_at)
                then record x { password = hashed }
                else x)
              w.users;
        tick = w.tick + 1;
      })
  unfolding update_password
  update_password-ok id hashed u h =
      let test = λ (x : User). x.id == id && not (is_some x.deleted_at) in
      let change = λ (x : User). record x { password = hashed } in
      let (rows, e, q) = rows-ok (p.users.update w.tick test change w.users) _ _ h in
      let (changed, _) = s.users.update-ok w.tick test change w.users u rows e in ground arith

  pub delete_refresh_token-ok :
      (token : String) (r : RefreshToken) {w' : World}
      → delete_refresh_token token w ≡ (ok r, w')
      → (r.token ≡ token)
        × Memᴰ r w.tokens
        × (w'
            ≡ record w { tokens = keep (λ x. not (x.token === token)) w.tokens; tick = w.tick + 1 })
  unfolding delete_refresh_token
  delete_refresh_token-ok token r h =
      let (rows, e, q) = rows-ok (p.tokens.delete w.tick (λ x. x.token === token) w.tokens) _ _ h in
      let (same, mem, left) =
        s.tokens.delete-ok w.tick (λ x. x.token === token) w.tokens r rows e in
      (ground (arith, eq_iff r.token token), mem, ground arith)

  pub delete_verification_code-ok :
      (email code : String) (type : CodeType) (c : VerificationCode) {w' : World}
      → delete_verification_code email type code w ≡ (ok c, w')
      → w' ≡ record w {
        codes = keep (λ x. not (where_code email type code x)) w.codes;
        tick = w.tick + 1;
      }
  unfolding delete_verification_code
  delete_verification_code-ok email code type c h =
      let (rows, e, q) =
        rows-ok (p.codes.delete w.tick (where_code email type code) w.codes) _ _ h in
      let (_, _, left) = s.codes.delete-ok w.tick (where_code email type code) w.codes c rows e in
      ground arith

module _ ⦃p : Platform⦄ (s : SoundTables p) (w : World) where
  -- A created user comes with one profile.
  pub create_user-ok :
      (n : NewUser) (u : User) {w' : World}
      → create_user n w ≡ (ok u, w')
      → (x : Profile) × MadeUser n u
        × (count (user_clash n) w.users ≡ 0)
        × (count (λ y. y.id == u.id) w.users ≡ 0)
        × (x.user_id ≡ u.id)
        × (w' ≡ record w {
          users = w.users ++ u ∷ [];
          profiles = w.profiles ++ x ∷ [];
          tick = w.tick + 1 + 1;
        })
  unfolding create_user
  create_user-ok n u h =
      let (u₁, e₁, h₁) = step-ok (insert_user n w) h in
      let (x, e₂, h₂) = step-ok (insert_profile u₁.id (insert_user n w).1) h₁ in
      let (made, unused, fresh, w₁) = insert_user-ok s w n u₁ e₁ in
      let (mine, w₂) = insert_profile-ok s (insert_user n w).1 u₁.id x e₂ in
      let same : u₁ ≡ u = ground arith in
      (x, rw (← same) made, unused, rw (← same) fresh, rw (← same) mine, ground arith)
