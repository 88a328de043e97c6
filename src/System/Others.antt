-- ===== src/System/Others.antt =====
-- Consistent tables, signing in with Google and deciding on a provider.
use capstone_home_care_be_mi.Common.{
  ℕ, ◌+◌, ◌≡◌, refl, String, Option, some, none, ◌==◌, non_empty, [], ◌∷◌, arith,
}
use capstone_home_care_be_mi.Data.{
  NewUser, NewDevice, VerificationStatus, verified, pending, rejected, same_status, ServiceProvider,
}
use capstone_home_care_be_mi.Errors.{
  rpc, google_user_info_error, manager, service_provider_not_found, same_verification_status,
}
use capstone_home_care_be_mi.Platform.{Platform}
use capstone_home_care_be_mi.Platform.Sound.{SoundTables, SelectsRoles}
use capstone_home_care_be_mi.World.{World, call, write}
use capstone_home_care_be_mi.World.Keeps.{keeps-bind, keeps-found, keeps-guard, keeps-write}
use capstone_home_care_be_mi.Services.{hash}
use capstone_home_care_be_mi.Repos.{
  UserIncludeRole, insert_user, create_user_include_role, create_device,
  find_unique_user_include_role, get_customer_role_id, find_unique_provider,
}
use capstone_home_care_be_mi.Auth.Google.{
  GoogleAuthState, UserInfo, GoogleClient, or_empty, client_of, found_or_created, open_session,
  google_callback,
}
use capstone_home_care_be_mi.Managers.{
  UpdateStatusProviderBody, set_verification, time_of, accept_provider, update_provider_status,
}
use capstone_home_care_be_mi.System.Consistent.{IsConsistent, IsConsistent-tick}
use capstone_home_care_be_mi.System.Rows.{Consistent-map_providers}
use capstone_home_care_be_mi.System.Tables.{insert_user-IsConsistent, create_device-IsConsistent}
use capstone_home_care_be_mi.System.Reads.{
  include_all-IsConsistent, find_unique_user_include_role-IsConsistent,
}
use capstone_home_care_be_mi.System.Roles.{get_customer_role_id-IsConsistent}
use capstone_home_care_be_mi.System.Sessions.{create_device-Holds, generate_tokens-Holds}

module _ ⦃p : Platform⦄ (s : SoundTables p) (w : World) (i : IsConsistent w) where
  create_user_include_role-IsConsistent :
      (n : NewUser) → IsConsistent (create_user_include_role n w).1
  unfolding create_user_include_role
  create_user_include_role-IsConsistent n =
      let i₁ = insert_user-IsConsistent s w i n in
      keeps-bind IsConsistent (insert_user n w) _ i₁ λ u _. include_all-IsConsistent _ i₁ u

  open_session-IsConsistent :
      (client : GoogleAuthState) (user : UserIncludeRole)
      → IsConsistent (open_session client user w).1
  unfolding open_session
  open_session-IsConsistent client user =
      let n : NewDevice = record {
        user_id = user.id;
        user_agent = client.user_agent;
        ip = client.ip;
        is_active = none;
        last_active = none;
      } in
      keeps-bind IsConsistent (create_device n w) _ (create_device-IsConsistent s w i n) λ d e.
        (generate_tokens-Holds s _
          (record {
            user_id = user.id;
            device_id = d.id;
            roles = user.roles;
            provider_id = none;
            staff_provider_id = none;
          })
          (create_device-Holds s w i n d e)).consistent

module _ ⦃p : Platform⦄ (s : SoundTables p) (selects : SelectsRoles p) where
  found_or_created-IsConsistent :
      (email : String) (info : UserInfo) (found : Option UserIncludeRole) (w : World)
      (i : IsConsistent w)
      → IsConsistent (found_or_created email info found w).1
  unfolding found_or_created hash
  found_or_created-IsConsistent email info (some user) w i = i
  found_or_created-IsConsistent email info none w i =
      let i₁ = get_customer_role_id-IsConsistent selects w i in
      let w₁ = (get_customer_role_id w).1 in
      keeps-bind IsConsistent (get_customer_role_id w) _ i₁ λ role _.
        (let w₂ : World = record w₁ { tick = w₁.tick + 1 } in
          let w₃ : World = record w₁ { tick = w₁.tick + 1 + 1 } in
          let i₃ : IsConsistent w₃ = record { at = i₁.at; remembers = i₁.remembers } in
          keeps-bind IsConsistent (hash (p.uuid w₁.tick) w₂) _ i₃ λ hashed _.
            create_user_include_role-IsConsistent s w₃ i₃ (record {
              email = email;
              name = or_empty info.name;
              password = hashed;
              role_ids = role.id ∷ [];
              phone = "";
              avatar = info.picture;
            }))

module _ ⦃p : Platform⦄ (s : SoundTables p) (selects : SelectsRoles p) (w : World)
    (i : IsConsistent w) where
  pub google_callback-IsConsistent :
      (g : GoogleClient) (code : String) (state : Option String)
      → IsConsistent (google_callback g code state w).1
  unfolding google_callback
  google_callback-IsConsistent g code state =
      let w₁ : World = record w { tick = w.tick + 1 } in
      let i₁ : IsConsistent w₁ = record { at = i.at; remembers = i.remembers } in
      let w₂ : World = record w { tick = w.tick + 1 + 1 } in
      let i₂ : IsConsistent w₂ = record { at = i.at; remembers = i.remembers } in
      keeps-bind IsConsistent (call (λ t. g.get_token t code) w) _ i₁ λ tokens _.
        keeps-bind IsConsistent (call (λ t. g.user_info t tokens) w₁) _ i₂ λ info _.
          keeps-found IsConsistent (non_empty info.email) (rpc google_user_info_error) _ w₂ i₂
            λ email _.
              (let i₃ = find_unique_user_include_role-IsConsistent w₂ i₂ email in
                let w₃ = (find_unique_user_include_role email w₂).1 in
                keeps-bind IsConsistent (find_unique_user_include_role email w₂) _ i₃ λ found _.
                  (let i₄ = found_or_created-IsConsistent s selects email info found w₃ i₃ in
                    keeps-bind IsConsistent (found_or_created email info found w₃) _ i₄
                      λ user _. open_session-IsConsistent s _ i₄ (client_of g state) user))

module _ ⦃p : Platform⦄ (s : SoundTables p) (w : World) (i : IsConsistent w) where
  time_of-IsConsistent : (status : VerificationStatus) → IsConsistent (time_of status w).1
  time_of-IsConsistent verified = record { at = i.at; remembers = i.remembers }
  time_of-IsConsistent pending = i
  time_of-IsConsistent rejected = i

set_verification-user_id :
    (status : VerificationStatus) (user : Option ℕ) (now : ℕ) (x : ServiceProvider)
    → (set_verification status user now x).user_id ≡ x.user_id
set_verification-user_id verified none now x = refl
set_verification-user_id verified (some user) now x = refl
set_verification-user_id pending user now x = refl
set_verification-user_id rejected user now x = refl

module _ ⦃p : Platform⦄ (s : SoundTables p) (w : World) (i : IsConsistent w) where
  accept_provider-IsConsistent :
      (body : UpdateStatusProviderBody) (user_id : Option ℕ)
      → IsConsistent (accept_provider body user_id w).1
  unfolding accept_provider
  accept_provider-IsConsistent body user_id =
      let status = body.verification_status in
      let i₁ = time_of-IsConsistent s w i status in
      let w₁ = (time_of status w).1 in
      keeps-bind IsConsistent (time_of status w) _ i₁ λ now _.
        (let test = λ (x : ServiceProvider). x.id == body.id in
          let change = set_verification status user_id now in
          let i₂ =
            keeps-write IsConsistent (λ v rows. record v { providers = rows })
              (λ v. p.providers.update v.tick test change v.providers) w₁
              (IsConsistent-tick w₁ (w₁.tick + 1) i₁)
              λ x rows e.
                (let (left, _) = s.providers.update-ok w₁.tick test change w₁.providers x rows e in
                  record {
                    remembers = i₁.remembers;
                    at = rw left (
                        Consistent-map_providers i₁.at _
                          (λ y. ground (arith, set_verification-user_id status user_id now y)));
                  }) in
          keeps-bind IsConsistent
            (write (λ v rows. record v { providers = rows })
              (λ v. p.providers.update v.tick test change v.providers) w₁)
            _ i₂ λ _ _. i₂)

module _ ⦃p : Platform⦄ (s : SoundTables p) (w : World) (i : IsConsistent w) where
  pub update_provider_status-IsConsistent :
      (body : UpdateStatusProviderBody) (user_id : Option ℕ)
      → IsConsistent (update_provider_status body user_id w).1
  unfolding update_provider_status find_unique_provider
  update_provider_status-IsConsistent body user_id =
      let w₁ : World = record w { tick = w.tick + 1 } in
      let i₁ : IsConsistent w₁ = record { at = i.at; remembers = i.remembers } in
      keeps-bind IsConsistent (find_unique_provider body.id w) _ i₁ λ found _.
        keeps-found IsConsistent found (manager service_provider_not_found) _ _ i₁ λ x _.
          keeps-guard IsConsistent (same_status x.verification_status body.verification_status)
            (manager same_verification_status) _ _ i₁
            λ _. accept_provider-IsConsistent s w₁ i₁ body user_id
