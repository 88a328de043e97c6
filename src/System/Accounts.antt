-- ===== src/System/Accounts.antt =====
-- Consistent tables, and the requests of auth.service.ts that open accounts, send codes and set
-- passwords.
use capstone_home_care_be_mi.Common.{
  ◌+◌, String, none, not, ltb, ◌==◌, ◌&&◌, is_some, [], ◌∷◌, Has-added, arith,
}
use capstone_home_care_be_mi.Data.{User, NewUser, NewVerificationCode, CodeType, same_type}
use capstone_home_care_be_mi.Errors.{
  is_unique_constraint_prisma_error, rpc, invalid_otp, AuthError, email_not_found,
  email_already_exists, failed_to_send_otp,
}
use capstone_home_care_be_mi.Platform.{Platform}
use capstone_home_care_be_mi.Platform.Sound.{SoundTables, SelectsRoles}
use capstone_home_care_be_mi.World.{World, throw_if, promise_all}
use capstone_home_care_be_mi.World.Keeps.{
  keeps-bind, keeps-found, keeps-guard, keeps-promise_all, keeps-catch, keeps-either,
}
use capstone_home_care_be_mi.Services.{hash, send_otp_email}
use capstone_home_care_be_mi.Helpers.{generate_otp, decimal}
use capstone_home_care_be_mi.Repos.{
  create_user, insert_user, insert_profile, delete_verification_code, create_verification_code,
  find_unique_user, find_unique_provider_include_name_and_tax_id, update_password,
  get_customer_role_id, get_service_provider_role_id,
}
use capstone_home_care_be_mi.Repos.Laws.{insert_user-ok}
use capstone_home_care_be_mi.Auth.{
  RegisterBody, RegisterProviderBody, SendOtpBody, ForgotPasswordBody, validate_verification_code,
  try_register, register, try_register_provider, register_provider, send_otp, forgot_password,
  unique_as_email,
}
use capstone_home_care_be_mi.Auth.Register.{IsOpened-ok}
use capstone_home_care_be_mi.System.Consistent.{IsConsistent, HasUser}
use capstone_home_care_be_mi.System.Tables.{
  insert_user-IsConsistent, insert_profile-IsConsistent, create_service_provider-IsConsistent,
  update_password-IsConsistent, delete_verification_code-IsConsistent,
  create_verification_code-IsConsistent,
}
use capstone_home_care_be_mi.System.Reads.{
  validate_verification_code-IsConsistent,
  find_unique_provider_include_name_and_tax_id-IsConsistent, send_otp_email-IsConsistent,
}
use capstone_home_care_be_mi.System.Roles.{
  get_customer_role_id-IsConsistent, get_service_provider_role_id-IsConsistent,
}

module _ ⦃p : Platform⦄ (s : SoundTables p) (w : World) (i : IsConsistent w) where
  -- The profile belongs to the user that was stored just before.
  pub create_user-IsConsistent : (n : NewUser) → IsConsistent (create_user n w).1
  unfolding create_user
  create_user-IsConsistent n =
      let i₁ = insert_user-IsConsistent s w i n in
      keeps-bind IsConsistent (insert_user n w) _ i₁ λ u e.
        (let (_, _, _, q) = insert_user-ok s w n u e in
          let stored : HasUser (insert_user n w).1.users u.id =
            rw q (Has-added (λ x. x.id == u.id) w.users u (ground arith)) in
          let i₂ = insert_profile-IsConsistent s _ i₁ u.id stored in
          keeps-bind IsConsistent (insert_profile u.id (insert_user n w).1) _ i₂ λ _ _. i₂)

module _ ⦃p : Platform⦄ (s : SoundTables p) where
  -- An account opened while its code is deleted.
  pub open_account-IsConsistent :
      (n : NewUser) (code : String) (w : World) (i : IsConsistent w)
      → IsConsistent
          (promise_all p
            (create_user n)
            (delete_verification_code n.email CodeType.register code)
            w).1
  open_account-IsConsistent n code w i =
      keeps-promise_all IsConsistent p (create_user n)
        (delete_verification_code n.email CodeType.register code) w
        (λ v j. create_user-IsConsistent s v j n)
        (λ v j. delete_verification_code-IsConsistent s v j n.email CodeType.register code) i

module _ ⦃p : Platform⦄ (s : SoundTables p) (selects : SelectsRoles p) (w : World)
    (i : IsConsistent w) where
  try_register-IsConsistent : (body : RegisterBody) → IsConsistent (try_register body w).1
  unfolding try_register hash
  try_register-IsConsistent body =
      let i₁ = validate_verification_code-IsConsistent w i body.email body.code CodeType.register in
      let w₁ = (validate_verification_code body.email body.code CodeType.register w).1 in
      let w₂ : World = record w₁ { tick = w₁.tick + 1 } in
      let i₂ : IsConsistent w₂ = record { at = i₁.at; remembers = i₁.remembers } in
      let w₃ : World = record w₁ { tick = w₁.tick + 1 + 1 } in
      let i₃ : IsConsistent w₃ = record { at = i₁.at; remembers = i₁.remembers } in
      keeps-bind IsConsistent (validate_verification_code body.email body.code CodeType.register w)
        _ i₁
        λ c _.
          keeps-guard IsConsistent (ltb c.expires_at (p.clock w₁.tick)) (rpc invalid_otp) _ _ i₂
            λ _. keeps-bind IsConsistent (hash body.password w₂) _ i₃ λ hashed _.
              (let i₄ = get_customer_role_id-IsConsistent selects w₃ i₃ in
                keeps-bind IsConsistent (get_customer_role_id w₃) _ i₄ λ role _.
                  (let i₅ =
                      open_account-IsConsistent s
                        (record {
                          email = body.email;
                          name = body.name;
                          password = hashed;
                          phone = body.phone;
                          avatar = none;
                          role_ids = role.id ∷ [];
                        })
                        body.code _ i₄ in
                    keeps-bind IsConsistent (promise_all p _ _ (get_customer_role_id w₃).1) _ i₅
                      λ _ _. i₅))

  try_register_provider-IsConsistent :
      (body : RegisterProviderBody) → IsConsistent (try_register_provider body w).1
  unfolding try_register_provider hash
  try_register_provider-IsConsistent body =
      let i₁ = validate_verification_code-IsConsistent w i body.email body.code CodeType.register in
      let w₁ = (validate_verification_code body.email body.code CodeType.register w).1 in
      let w₂ : World = record w₁ { tick = w₁.tick + 1 } in
      let i₂ : IsConsistent w₂ = record { at = i₁.at; remembers = i₁.remembers } in
      keeps-bind IsConsistent (validate_verification_code body.email body.code CodeType.register w)
        _ i₁
        λ c _.
          keeps-guard IsConsistent (ltb c.expires_at (p.clock w₁.tick)) (rpc invalid_otp) _ _ i₂
            λ _.
              (let lookup = find_unique_provider_include_name_and_tax_id body.name body.tax_id in
                let w₃ = (lookup w₂).1 in
                let i₃ =
                  find_unique_provider_include_name_and_tax_id-IsConsistent w₂ i₂ body.name
                    body.tax_id in
                keeps-bind IsConsistent (lookup w₂) _ i₃ λ taken _.
                  keeps-guard IsConsistent taken (rpc AuthError.service_provider_already_exists) _ _
                    i₃
                    λ _.
                      (let w₄ : World = record w₃ { tick = w₃.tick + 1 } in
                        let i₄ : IsConsistent w₄ = record {
                          at = i₃.at;
                          remembers = i₃.remembers;
                        } in
                        keeps-bind IsConsistent (hash body.password w₃) _ i₄ λ hashed _.
                          (let i₅ = get_service_provider_role_id-IsConsistent selects w₄ i₄ in
                            let w₅ = (get_service_provider_role_id w₄).1 in
                            keeps-bind IsConsistent (get_service_provider_role_id w₄) _ i₅ λ role _.
                              (let n : NewUser = record {
                                email = body.email;
                                name = body.name;
                                password = hashed;
                                phone = body.phone;
                                avatar = none;
                                role_ids = role.id ∷ [];
                              } in
                                let i₆ = open_account-IsConsistent s n body.code w₅ i₅ in
                                keeps-bind IsConsistent
                                  (promise_all p (create_user n)
                                    (delete_verification_code body.email CodeType.register
                                      body.code)
                                    w₅)
                                  _ i₆
                                  λ pair e.
                                    (let opened = IsOpened-ok s w₅ n body.code pair.0 pair.1 e in
                                      create_service_provider-IsConsistent s _ i₆ _ (
                                        rw opened.users (
                                          Has-added (λ x. x.id == (pair.0).id) w₅.users pair.0
                                            (ground arith))))))))

module _ ⦃p : Platform⦄ (s : SoundTables p) (selects : SelectsRoles p) (w : World)
    (i : IsConsistent w) where
  pub register-IsConsistent : (body : RegisterBody) → IsConsistent (register body w).1
  unfolding register
  register-IsConsistent body =
      keeps-catch IsConsistent (try_register body) unique_as_email w
        (try_register-IsConsistent s selects w i body)
        λ e v j. keeps-either IsConsistent User (is_unique_constraint_prisma_error e) _ _ v j

  pub register_provider-IsConsistent :
      (body : RegisterProviderBody) → IsConsistent (register_provider body w).1
  unfolding register_provider
  register_provider-IsConsistent body =
      keeps-catch IsConsistent (try_register_provider body) unique_as_email w
        (try_register_provider-IsConsistent s selects w i body)
        λ e v j. keeps-either IsConsistent (Unit {0}) (is_unique_constraint_prisma_error e) _ _ v j

module _ ⦃p : Platform⦄ (s : SoundTables p) (w : World) (i : IsConsistent w) where
  pub send_otp-IsConsistent : (body : SendOtpBody) → IsConsistent (send_otp body w).1
  unfolding send_otp generate_otp find_unique_user
  send_otp-IsConsistent body =
      let w₁ : World = record w { tick = w.tick + 1 } in
      let i₁ : IsConsistent w₁ = record { at = i.at; remembers = i.remembers } in
      let w₃ : World = record w { tick = w.tick + 1 + 1 + 1 } in
      let i₃ : IsConsistent w₃ = record { at = i.at; remembers = i.remembers } in
      keeps-bind IsConsistent (find_unique_user body.email w) _ i₁ λ user _.
        keeps-guard IsConsistent (is_some user && same_type body.type CodeType.register)
          (rpc email_already_exists) _ _ i₁
          λ _.
            keeps-guard IsConsistent
              (not (is_some user) && same_type body.type CodeType.forgot_password)
              (rpc email_not_found) _ _ i₁
              λ _.
                (let n : NewVerificationCode = record {
                  email = body.email;
                  type = body.type;
                  code = decimal (p.random_int w₁.tick 100_000 1_000_000);
                  expires_at = p.clock (w₁.tick + 1) + p.ms (p.config "OTP_EXPIRES_IN");
                } in
                  let i₄ = create_verification_code-IsConsistent s w₃ i₃ n in
                  keeps-bind IsConsistent (create_verification_code n w₃) _ i₄ λ _ _.
                    (let i₅ = send_otp_email-IsConsistent _ i₄ body.email n.code in
                      keeps-bind IsConsistent
                        (send_otp_email body.email n.code (create_verification_code n w₃).1)
                        (λ error. throw_if (is_some error) (rpc failed_to_send_otp) _) i₅
                        λ _ _. i₅))

  pub forgot_password-IsConsistent :
      (body : ForgotPasswordBody) → IsConsistent (forgot_password body w).1
  unfolding forgot_password hash find_unique_user
  forgot_password-IsConsistent body =
      let w₁ : World = record w { tick = w.tick + 1 } in
      let i₁ : IsConsistent w₁ = record { at = i.at; remembers = i.remembers } in
      keeps-bind IsConsistent (find_unique_user body.email w) _ i₁ λ found _.
        keeps-found IsConsistent found (rpc email_not_found) _ _ i₁ λ user _.
          (let i₂ =
              validate_verification_code-IsConsistent w₁ i₁ body.email body.code
                CodeType.forgot_password in
            let w₂ =
              (validate_verification_code body.email body.code CodeType.forgot_password w₁).1 in
            keeps-bind IsConsistent
              (validate_verification_code body.email body.code CodeType.forgot_password w₁) _ i₂
              λ c _.
                (let w₃ : World = record w₂ { tick = w₂.tick + 1 } in
                  let i₃ : IsConsistent w₃ = record { at = i₂.at; remembers = i₂.remembers } in
                  let w₄ : World = record w₂ { tick = w₂.tick + 1 + 1 } in
                  let i₄ : IsConsistent w₄ = record { at = i₂.at; remembers = i₂.remembers } in
                  keeps-guard IsConsistent (ltb c.expires_at (p.clock w₂.tick)) (rpc invalid_otp) _
                    _ i₃
                    λ _. keeps-bind IsConsistent (hash body.new_password w₃) _ i₄ λ hashed _.
                      (let kept =
                          keeps-promise_all IsConsistent p
                            (delete_verification_code body.email CodeType.forgot_password body.code)
                            (update_password user.id hashed) w₄
                            (λ v j.
                              delete_verification_code-IsConsistent s v j body.email
                                CodeType.forgot_password body.code)
                            (λ v j. update_password-IsConsistent s v j user.id hashed) i₄ in
                        keeps-bind IsConsistent (promise_all p _ _ w₄) _ kept λ _ _. kept)))
