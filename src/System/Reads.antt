-- ===== src/System/Reads.antt =====
-- Consistent tables, and the calls that read them or do not touch them.
use capstone_home_care_be_mi.Common.{
  ◌+◌, String, Option, some, none, ltb, ◌==◌, ◌===◌, non_empty, not, [], ◌∷◌, any, is_some, ◌&&◌,
  ◌++◌,
}
use capstone_home_care_be_mi.Data.{User, CodeType, RoleName, role_text}
use capstone_home_care_be_mi.Errors.{
  Result, ok, err, rpc, invalid_otp, otp_expired, failure, invalid_totp_and_code,
}
use capstone_home_care_be_mi.Platform.{Platform}
use capstone_home_care_be_mi.World.{World, pure, throw, throw_if, call, promise_all, ◌>>◌}
use capstone_home_care_be_mi.World.Keeps.{
  keeps-bind, keeps-found, keeps-first, keeps-option, keeps-guard, keeps-promise_all,
}
use capstone_home_care_be_mi.Services.{send_otp_email, otp_email, verify_totp}
use capstone_home_care_be_mi.Repos.{
  UserIncludeRole, include_roles, include_provider, include_staff, include_all, find_user,
  find_unique_user_include_role, find_unique_verification_code,
  find_unique_refresh_token_include_user_role, find_unique_provider_include_name_and_tax_id,
  get_role,
}
use capstone_home_care_be_mi.Auth.{LoginBody}
use capstone_home_care_be_mi.Auth.{validate_verification_code, second_factor}
use capstone_home_care_be_mi.System.Consistent.{IsConsistent}

module _ ⦃p : Platform⦄ (w : World) (i : IsConsistent w) where
  pub send_otp_email-IsConsistent :
      (email otp : String) → IsConsistent (send_otp_email email otp w).1
  unfolding send_otp_email
  send_otp_email-IsConsistent email otp = go (p.send_email w.tick (otp_email email otp))
    where
      go :
          (r : Result (Option String))
          → IsConsistent
              (elim r as (λ _. Result (Option String) × World) [
                | ok none ↦ (
                  ok none,
                  record w { tick = w.tick + 1; mails = w.mails ++ otp_email email otp ∷ [] },
                )
                | ok (some e) ↦ (ok (some e), record w { tick = w.tick + 1 })
                | err e ↦ (err e, record w { tick = w.tick + 1 })
              ]).1
      go (ok none) = record { at = i.at; remembers = i.remembers }
      go (ok (some e)) = record { at = i.at; remembers = i.remembers }
      go (err e) = record { at = i.at; remembers = i.remembers }

  pub include_roles-IsConsistent : (u : User) → IsConsistent (include_roles u w).1
  unfolding include_roles
  include_roles-IsConsistent u =
      let kept : IsConsistent (record w { tick = w.tick + 1 }) = record {
        at = i.at;
        remembers = i.remembers;
      } in
      keeps-bind IsConsistent
        (call (λ t. p.roles.find_many t (λ r. any (λ i. i == r.id) u.role_ids) w.roles) w) _ kept
        λ _ _. kept

  pub include_provider-IsConsistent : (u : User) → IsConsistent (include_provider u w).1
  unfolding include_provider
  include_provider-IsConsistent u =
      let kept : IsConsistent (record w { tick = w.tick + 1 }) = record {
        at = i.at;
        remembers = i.remembers;
      } in
      keeps-bind IsConsistent
        (call (λ t. p.providers.find t (λ s. s.user_id == u.id) w.providers) w) _ kept λ _ _. kept

  pub include_staff-IsConsistent : (u : User) → IsConsistent (include_staff u w).1
  unfolding include_staff
  include_staff-IsConsistent u =
      let kept : IsConsistent (record w { tick = w.tick + 1 }) = record {
        at = i.at;
        remembers = i.remembers;
      } in
      keeps-bind IsConsistent (call (λ t. p.staff.find t (λ s. s.user_id == u.id) w.staff) w) _ kept
        λ _ _. kept

  pub validate_verification_code-IsConsistent :
      (email code : String) (type : CodeType)
      → IsConsistent (validate_verification_code email code type w).1
  unfolding validate_verification_code find_unique_verification_code
  validate_verification_code-IsConsistent email code type =
      let kept : IsConsistent (record w { tick = w.tick + 1 }) = record {
        at = i.at;
        remembers = i.remembers;
      } in
      let later : IsConsistent (record w { tick = w.tick + 1 + 1 }) = record {
        at = i.at;
        remembers = i.remembers;
      } in
      keeps-bind IsConsistent (find_unique_verification_code email type code w) _ kept λ o _.
        keeps-found IsConsistent o (rpc invalid_otp) _ _ kept λ c _.
          keeps-guard IsConsistent (not (c.code === code)) (rpc invalid_otp) _ _ kept λ _.
            keeps-guard IsConsistent (ltb c.expires_at (p.clock (w.tick + 1))) (rpc otp_expired) _ _
              later λ _. later

module _ ⦃p : Platform⦄ (w : World) (i : IsConsistent w) where
  pub include_all-IsConsistent : (u : User) → IsConsistent (include_all u w).1
  unfolding include_all
  include_all-IsConsistent u =
      let i₁ = include_roles-IsConsistent w i u in
      keeps-bind IsConsistent (include_roles u w) _ i₁ λ _ _.
        (let i₂ = include_provider-IsConsistent _ i₁ u in
          keeps-bind IsConsistent (include_provider u (include_roles u w).1) _ i₂ λ _ _.
            (let i₃ = include_staff-IsConsistent _ i₂ u in
              keeps-bind IsConsistent (include_staff u _) _ i₃ λ _ _. i₃))

module _ ⦃p : Platform⦄ (w : World) (i : IsConsistent w) where
  pub find_unique_user_include_role-IsConsistent :
      (email : String) → IsConsistent (find_unique_user_include_role email w).1
  unfolding find_unique_user_include_role find_user
  find_unique_user_include_role-IsConsistent email =
      let w₁ : World = record w { tick = w.tick + 1 } in
      let kept : IsConsistent w₁ = record { at = i.at; remembers = i.remembers } in
      keeps-bind IsConsistent (find_user (λ u. u.email === email && not (is_some u.deleted_at)) w) _
        kept
        λ o _. keeps-option IsConsistent o (pure none) _ w₁ kept λ u _.
          (let more = include_all-IsConsistent _ kept u in
            keeps-bind IsConsistent (include_all u w₁) _ more λ _ _. more)

  pub find_unique_refresh_token_include_user_role-IsConsistent :
      (token : String) → IsConsistent (find_unique_refresh_token_include_user_role token w).1
  unfolding find_unique_refresh_token_include_user_role find_user
  find_unique_refresh_token_include_user_role-IsConsistent token =
      let w₁ : World = record w { tick = w.tick + 1 } in
      let w₂ : World = record w { tick = w.tick + 1 + 1 } in
      let kept : IsConsistent w₁ = record { at = i.at; remembers = i.remembers } in
      let later : IsConsistent w₂ = record { at = i.at; remembers = i.remembers } in
      keeps-bind IsConsistent (call (λ t. p.tokens.find t (λ r. r.token === token) w.tokens) w) _
        kept
        λ o _. keeps-option IsConsistent o (pure none) _ w₁ kept λ r _.
          keeps-bind IsConsistent (find_user (λ u. u.id == r.user_id) w₁) _ later λ o₂ _.
            keeps-option IsConsistent o₂ (pure none) _ w₂ later λ u _.
              (let more = include_roles-IsConsistent w₂ later u in
                keeps-bind IsConsistent (include_roles u w₂) _ more λ _ _. more)

  pub find_unique_provider_include_name_and_tax_id-IsConsistent :
      (name tax_id : String)
      → IsConsistent (find_unique_provider_include_name_and_tax_id name tax_id w).1
  unfolding find_unique_provider_include_name_and_tax_id find_user
  find_unique_provider_include_name_and_tax_id-IsConsistent name tax_id =
      let kept =
        keeps-promise_all IsConsistent p
          (λ v. call (λ t. p.providers.find t (λ s. s.tax_id === tax_id) v.providers) v)
          (find_user (λ u. u.name === name)) w
          (λ v j. record { at = j.at; remembers = j.remembers })
          (λ v j. record { at = j.at; remembers = j.remembers }) i in
      keeps-bind IsConsistent (promise_all p _ _ w) _ kept λ _ _. kept

  pub get_role-IsConsistent : (name : RoleName) → IsConsistent (get_role name w).1
  unfolding get_role
  get_role-IsConsistent name =
      let kept : IsConsistent (record w { tick = w.tick + 1 }) = record {
        at = i.at;
        remembers = i.remembers;
      } in
      keeps-bind IsConsistent (call (λ t. p.select_role t (role_text name) w.roles) w) _ kept
        λ rows _. keeps-first IsConsistent rows (failure "Role not found") _ _ kept λ _. kept

module _ ⦃p : Platform⦄ (w : World) (i : IsConsistent w) where
  pub second_factor-IsConsistent :
      (user : UserIncludeRole) (body : LoginBody) → IsConsistent (second_factor user body w).1
  unfolding second_factor verify_totp
  second_factor-IsConsistent user body =
      let kept : IsConsistent (record w { tick = w.tick + 1 }) = record {
        at = i.at;
        remembers = i.remembers;
      } in
      keeps-option IsConsistent (non_empty user.totp_secret) (pure tt) _ w i λ secret _.
        keeps-option IsConsistent (non_empty body.totp_code)
          (elim (non_empty body.code) [
            | none ↦ throw (rpc invalid_totp_and_code)
            | some code ↦ do validate_verification_code user.email code CodeType.login; pure tt
          ])
          _ w
          (keeps-option IsConsistent (non_empty body.code) (throw (rpc invalid_totp_and_code)) _ w i
            λ code _.
              (let more =
                  validate_verification_code-IsConsistent w i user.email code CodeType.login in
                keeps-bind IsConsistent
                  (validate_verification_code user.email code CodeType.login w) _ more λ _ _. more))
          λ token _.
            keeps-bind IsConsistent (verify_totp user.email secret token w)
              (λ is_valid.
                throw_if (not is_valid) (rpc invalid_otp) (record w { tick = w.tick + 1 }))
              kept λ _ _. kept
