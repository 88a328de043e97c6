-- ===== src/System/Tables.antt =====
-- Consistent tables, and the queries of auth.repo.ts and shared-user.repo.ts that write one.
use capstone_home_care_be_mi.Common.{
  true, ℕ, ◌+◌, ◌≡◌, refl, ap, ◌∙◌, String, not, ◌&&◌, count, count-keep_covered, ◌==◌, ◌===◌,
  is_some, arith, Unique-append, Unique-keep, count_ext,
}
use capstone_home_care_be_mi.Data.{
  User, NewUser, NewDevice, RefreshToken, NewRefreshToken, NewVerificationCode, CodeType,
  NewServiceProvider,
}
use capstone_home_care_be_mi.Platform.{Platform}
use capstone_home_care_be_mi.Platform.Sound.{SoundTables}
use capstone_home_care_be_mi.World.{World, write}
use capstone_home_care_be_mi.World.Keeps.{keeps-write, keeps-bind}
use capstone_home_care_be_mi.Repos.{
  has_user, has_device, has_roles, insert_user, insert_profile, create_device, update_device,
  DeviceUpdate, mark_device, create_refresh_token, delete_refresh_token, delete_verification_code,
  create_verification_code, create_service_provider, update_password, where_code,
}
use capstone_home_care_be_mi.System.Consistent.{
  IsConsistent, IsConsistent-tick, HasUser, HasDevice, same_purpose,
}
use capstone_home_care_be_mi.Errors.{Result, ok}
use capstone_home_care_be_mi.World.Laws.{rows-ok}
use capstone_home_care_be_mi.Auth.Codes.{codes_for}
use capstone_home_care_be_mi.System.Rows.{
  Consistent-add_user, Consistent-add_profile, Consistent-add_provider, Consistent-add_device,
  Consistent-map_devices, Consistent-map_users, Consistent-add_token, Consistent-keep_tokens,
  Consistent-set_codes, purpose_sym,
}

module _ ⦃p : Platform⦄ (s : SoundTables p) (w : World) (i : IsConsistent w) where
  pub insert_user-IsConsistent : (n : NewUser) → IsConsistent (insert_user n w).1
  unfolding insert_user
  insert_user-IsConsistent n =
      keeps-write IsConsistent (λ v rows. record v { users = rows })
        (λ v. p.users.create v.tick (has_roles n.role_ids v) n v.users) w
        (IsConsistent-tick w (w.tick + 1) i)
        λ u rows e.
          (let (made, added, unused, fresh) =
              s.users.create-ok w.tick (has_roles n.role_ids w) n w.users u rows e in
            let free : count (λ x. x.email === u.email) w.users ≡ 0 = rw made.email unused in
            record {
              remembers = i.remembers;
              at = rw added (Consistent-add_user i.at u free fresh);
            })

  pub insert_profile-IsConsistent :
      (id : ℕ) → HasUser w.users id → IsConsistent (insert_profile id w).1
  unfolding insert_profile
  insert_profile-IsConsistent id owner =
      keeps-write IsConsistent (λ v rows. record v { profiles = rows })
        (λ v. p.profiles.create v.tick (has_user id v) id v.profiles) w
        (IsConsistent-tick w (w.tick + 1) i)
        λ x rows e.
          (let (made, added, unused, fresh) =
              s.profiles.create-ok w.tick (has_user id w) id w.profiles x rows e in
            record {
              remembers = i.remembers;
              at = rw added (Consistent-add_profile i.at x (rw made unused) (rw made owner));
            })

  pub create_service_provider-IsConsistent :
      (n : NewServiceProvider)
      → HasUser w.users n.user_id
      → IsConsistent (create_service_provider n w).1
  unfolding create_service_provider
  create_service_provider-IsConsistent n owner =
      let kept =
        keeps-write IsConsistent (λ v rows. record v { providers = rows })
          (λ v. p.providers.create v.tick (has_user n.user_id v) n v.providers) w
          (IsConsistent-tick w (w.tick + 1) i)
          λ x rows e.
            (let (made, added, unused, fresh) =
                s.providers.create-ok w.tick (has_user n.user_id w) n w.providers x rows e in
              record {
                remembers = i.remembers;
                at = rw added (
                    Consistent-add_provider i.at x (rw made.user_id unused)
                      (rw made.user_id owner));
              }) in
      keeps-bind IsConsistent _ (λ _. _) kept (λ _ _. kept)

  pub create_device-IsConsistent : (n : NewDevice) → IsConsistent (create_device n w).1
  unfolding create_device
  create_device-IsConsistent n =
      keeps-write IsConsistent (λ v rows. record v { devices = rows })
        (λ v. p.devices.create v.tick (has_user n.user_id v) n v.devices) w
        (IsConsistent-tick w (w.tick + 1) i)
        λ d rows e.
          (let (made, added, _, fresh) =
              s.devices.create-ok w.tick (has_user n.user_id w) n w.devices d rows e in
            record { remembers = i.remembers; at = rw added (Consistent-add_device i.at d fresh) })

  pub update_device-IsConsistent :
      (id : ℕ) (update : DeviceUpdate) → IsConsistent (update_device id update w).1
  unfolding update_device
  update_device-IsConsistent id update =
      keeps-write IsConsistent (λ v rows. record v { devices = rows })
        (λ v.
          p.devices.update v.tick (λ d. d.id == id) (mark_device update (p.clock v.tick)) v.devices)
        w (IsConsistent-tick w (w.tick + 1) i)
        λ d rows e.
          (let (left, _) =
              s.devices.update-ok w.tick (λ d. d.id == id) (mark_device update (p.clock w.tick))
                w.devices d rows e in
            record {
              remembers = i.remembers;
              at = rw left (Consistent-map_devices i.at _ (λ d. ground arith));
            })

  pub update_password-IsConsistent :
      (id : ℕ) (hashed : String) → IsConsistent (update_password id hashed w).1
  unfolding update_password
  update_password-IsConsistent id hashed =
      let test = λ (u : User). u.id == id && not (is_some u.deleted_at) in
      let change = λ (u : User). record u { password = hashed } in
      keeps-write IsConsistent (λ v rows. record v { users = rows })
        (λ v. p.users.update v.tick test change v.users) w (IsConsistent-tick w (w.tick + 1) i)
        λ u rows e.
          (let (left, _) = s.users.update-ok w.tick test change w.users u rows e in
            record {
              remembers = i.remembers;
              at = rw left (Consistent-map_users i.at _ (λ d. ground arith) (λ d. ground arith));
            })

  pub create_refresh_token-IsConsistent :
      (n : NewRefreshToken)
      → HasDevice w.devices n.device_id
      → IsConsistent (create_refresh_token n w).1
  unfolding create_refresh_token
  create_refresh_token-IsConsistent n owner =
      keeps-write IsConsistent (λ v rows. record v { tokens = rows })
        (λ v. p.tokens.create v.tick (has_user n.user_id v && has_device n.device_id v) n v.tokens)
        w (IsConsistent-tick w (w.tick + 1) i)
        λ r rows e.
          (let (made, added, unused, _) =
              s.tokens.create-ok w.tick (has_user n.user_id w && has_device n.device_id w) n
                w.tokens r rows e in
            record {
              remembers = i.remembers;
              at =
                  rw added
                    (Consistent-add_token i.at r (rw made.token unused) (rw made.device_id owner));
            })

  pub delete_refresh_token-IsConsistent :
      (token : String) → IsConsistent (delete_refresh_token token w).1
  unfolding delete_refresh_token
  delete_refresh_token-IsConsistent token =
      let test = λ (r : RefreshToken). r.token === token in
      keeps-write IsConsistent (λ v rows. record v { tokens = rows })
        (λ v. p.tokens.delete v.tick test v.tokens) w (IsConsistent-tick w (w.tick + 1) i)
        λ r rows e.
          (let (_, _, left) = s.tokens.delete-ok w.tick test w.tokens r rows e in
            record { remembers = i.remembers; at = rw left (Consistent-keep_tokens i.at _) })

  pub delete_verification_code-IsConsistent :
      (email : String) (type : CodeType) (code : String)
      → IsConsistent (delete_verification_code email type code w).1
  unfolding delete_verification_code
  delete_verification_code-IsConsistent email type code =
      let test = where_code email type code in
      keeps-write IsConsistent (λ v rows. record v { codes = rows })
        (λ v. p.codes.delete v.tick test v.codes) w (IsConsistent-tick w (w.tick + 1) i)
        λ c rows e.
          (let (_, _, left) = s.codes.delete-ok w.tick test w.codes c rows e in
            record {
              remembers = i.remembers;
              at =
                  rw left (
                    Consistent-set_codes i.at _ (Unique-keep same_purpose _ w.codes i.at.purposes));
            })

module _ ⦃p : Platform⦄ (s : SoundTables p) (w : World) (i : IsConsistent w) where
  -- The codes of one address and kind taken away.
  abbrev clear_codes : String → CodeType → Result ℕ × World
  clear_codes email type =
      write (λ v rows. record v { codes = rows })
        (λ v. p.codes.delete_many v.tick (codes_for email type) v.codes) w

  clear_codes-IsConsistent :
      (email : String) (type : CodeType) → IsConsistent (clear_codes email type).1
  clear_codes-IsConsistent email type =
      keeps-write IsConsistent (λ v rows. record v { codes = rows })
        (λ v. p.codes.delete_many v.tick (codes_for email type) v.codes) w
        (IsConsistent-tick w (w.tick + 1) i)
        λ a rows e.
          (let left = s.codes.delete_many-ok w.tick (codes_for email type) w.codes a rows e in
            record {
              remembers = i.remembers;
              at =
                  rw left (
                    Consistent-set_codes i.at _ (Unique-keep same_purpose _ w.codes i.at.purposes));
            })

  clear_codes-none :
      (email : String) (type : CodeType) (a : ℕ)
      → clear_codes email type ≡ (ok a, (clear_codes email type).1)
      → count (codes_for email type) (clear_codes email type).1.codes ≡ 0
  clear_codes-none email type a e =
      let test = codes_for email type in
      let (rows, q, same) = rows-ok (p.codes.delete_many w.tick test w.codes) _ _ e in
      let left = s.codes.delete_many-ok w.tick test w.codes a rows q in
      let gone = count-keep_covered test test w.codes (λ x h. h) in
      ap (λ (v : World). count test v.codes) same ∙ (ap (count test) left ∙ gone)

  pub create_verification_code-IsConsistent :
      (n : NewVerificationCode) → IsConsistent (create_verification_code n w).1
  unfolding create_verification_code
  create_verification_code-IsConsistent n =
      let cleared = clear_codes n.email n.type in
      let kept = clear_codes-IsConsistent n.email n.type in
      keeps-bind IsConsistent cleared _ kept λ a e.
        keeps-write IsConsistent (λ v rows. record v { codes = rows })
          (λ v. p.codes.create v.tick true n v.codes) cleared.1
          (IsConsistent-tick cleared.1 (cleared.1.tick + 1) kept)
          λ c rows e₂.
            (let (made, added, _, _) =
                s.codes.create-ok cleared.1.tick true n cleared.1.codes c rows e₂ in
              let none_left = clear_codes-none n.email n.type a e in
              let apart : count (same_purpose c) cleared.1.codes ≡ 0 =
                count_ext (same_purpose c) (codes_for n.email n.type) cleared.1.codes
                  (λ x. purpose_sym c x ∙ rw (made.email, made.type) refl)
                ∙ none_left in
              record {
                remembers = kept.remembers;
                at = rw added (
                    Consistent-set_codes kept.at _ (
                      Unique-append same_purpose cleared.1.codes c purpose_sym kept.at.purposes
                        apart));
              })
