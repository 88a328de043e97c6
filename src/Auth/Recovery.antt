-- ===== src/Auth/Recovery.antt =====
-- `sendOTP` and `forgotPassword`: the code that is sent is the code that is stored, and what a change
-- of password takes and leaves.
use capstone_home_care_be_mi.Common.{
  ℕ, ◌+◌, ◌≡◌, ◌≢◌, ◌≤◌, inl, inr, refl, ap, String, Bool, false, not, ◌&&◌, Option, none, [], ◌∷◌,
  ◌++◌, map, Memᴰ, keep, count, count-mem, ◌==◌, ◌===◌, is_some, if◌then◌else◌, ltb, arith,
}
use capstone_home_care_be_mi.Data.{User, VerificationCode, CodeType, same_type}
use capstone_home_care_be_mi.Errors.{ok, err, rpc, email_already_exists, email_not_found}
use capstone_home_care_be_mi.Platform.{Platform, find_cases}
use capstone_home_care_be_mi.Platform.Sound.{SoundTables, LiveTables}
use capstone_home_care_be_mi.World.{World, promise_all}
use capstone_home_care_be_mi.World.Laws.{step-ok, guard-ok, found-ok, promise_all-ok}
use capstone_home_care_be_mi.Services.{otp_email, send_otp_email, hash, salt_rounds}
use capstone_home_care_be_mi.Helpers.{generate_otp}
use capstone_home_care_be_mi.Repos.{
  find_unique_user, create_verification_code, where_code, delete_verification_code, update_password,
}
use capstone_home_care_be_mi.Repos.Laws.{
  find_user-some, delete_verification_code-ok, update_password-ok,
}
use capstone_home_care_be_mi.Auth.Bodies.{SendOtpBody, ForgotPasswordBody}
use capstone_home_care_be_mi.Auth.Service.{send_otp, forgot_password, validate_verification_code}
use capstone_home_care_be_mi.Auth.Register.{hash-ok}
use capstone_home_care_be_mi.Auth.Codes.{codes_for, create_verification_code-ok, validate-ok}

-- The users of an address who are not deleted.
abbrev pub has_email : String → User → Bool
has_email email u = u.email === email && not (is_some u.deleted_at)

-- One code for the address and the kind is stored, and it is the one that was sent.
pub record IsSent ⦃p : Platform⦄ (body : SendOtpBody) (w w' : World) : Type 0 where
  pub row : VerificationCode
  pub email : row.email ≡ body.email
  pub type : row.type ≡ body.type
  pub expires : (t : ℕ) × (row.expires_at ≡ p.clock t + p.ms (p.config "OTP_EXPIRES_IN"))
  pub codes : w'.codes ≡ keep (λ c. not (codes_for body.email body.type c)) w.codes ++ row ∷ []
  pub mails : w'.mails ≡ w.mails ++ otp_email body.email row.code ∷ []
  pub users : w'.users ≡ w.users
  pub tokens : w'.tokens ≡ w.tokens

module _ ⦃p : Platform⦄ where
  send_otp_email-sent :
      (w : World) (email otp : String) (o : Option String) {w' : World}
      → send_otp_email email otp w ≡ (ok o, w')
      → is_some o ≡ false
      → w' ≡ record w { tick = w.tick + 1; mails = w.mails ++ otp_email email otp ∷ [] }
  unfolding send_otp_email
  send_otp_email-sent w email otp o h quiet = ground arith

  generate_otp-reads : (w : World) → (generate_otp w).1 ≡ record w { tick = w.tick + 1 }
  unfolding generate_otp
  generate_otp-reads w = refl

  find_unique_user-reads :
      (w : World) (email : String) → (find_unique_user email w).1 ≡ record w { tick = w.tick + 1 }
  unfolding find_unique_user
  find_unique_user-reads w email = refl

module _ ⦃p : Platform⦄ (s : SoundTables p) (w : World) where
  -- Given sound tables: when sendOTP returns, the codes of the address and kind are replaced by
  -- one new code, which is the one in the mail sent, and expires the configured time after the
  -- clock was read.
  pub send_otp-IsSent :
      (body : SendOtpBody) {w' : World} → send_otp body w ≡ (ok tt, w') → IsSent body w w'
  unfolding send_otp
  send_otp-IsSent body {w'} h =
      let (o, e₁, h₁) = step-ok (find_unique_user body.email w) h in
      let q₁ = find_unique_user-reads w body.email in
      let (c₁, h₂) = guard-ok (is_some o && same_type body.type CodeType.register) _ _ _ h₁ in
      let (c₂, h₃) =
        guard-ok (not (is_some o) && same_type body.type CodeType.forgot_password) _ _ _ h₂ in
      let (code, e₄, h₄) = step-ok (generate_otp _) h₃ in
      let (row, e₅, h₅) = step-ok (create_verification_code _ _) h₄ in
      let (o', e₆, h₆) = step-ok (send_otp_email body.email code _) h₅ in
      let (by_email, by_code, by_type, ends, q₂) = create_verification_code-ok s _ _ row e₅ in
      let w₁ = (find_unique_user body.email w).1 in
      let w₂ = (generate_otp w₁).1 in
      let q₃ = generate_otp-reads w₁ in
      let w₃ =
        (create_verification_code
          (record {
            email = body.email;
            type = body.type;
            code = code;
            expires_at = p.clock w₂.tick + p.ms (p.config "OTP_EXPIRES_IN");
          })
          (record w₂ { tick = w₂.tick + 1 })).1 in
      let quiet : is_some o' ≡ false = ground arith in
      let q₄ = send_otp_email-sent w₃ body.email code o' {w' = w'} (ground arith) quiet in
      record {
        row = row;
        email = by_email;
        type = by_type;
        expires = (w₂.tick, ends);
        codes = ground arith;
        mails = ground arith;
        users = ground arith;
        tokens = ground arith;
      }

module _ ⦃p : Platform⦄ (s : SoundTables p) (live : LiveTables p) (w : World) where
  -- Given sound and live tables: no code is sent for registering an address that a user has, and
  -- the tables stay.
  pub send_otp-taken :
      (body : SendOtpBody)
      → body.type ≡ CodeType.register
      → count (has_email body.email) w.users ≢ 0
      → send_otp body w ≡ (err (rpc email_already_exists), record w { tick = w.tick + 1 })
  unfolding send_otp find_unique_user
  send_otp-taken body kind some_user =
      elim (find_cases s.users live.users w.tick (has_email body.email) w.users) [
        | inl (e, zero) ↦ absurd (some_user zero)
        | inr (u, e, _, _) ↦ let same = ap (λ x. same_type x CodeType.register) kind in ground arith
      ]

  -- Given sound and live tables: no code is sent for a forgotten password to an address that no
  -- user has, and the tables stay.
  pub send_otp-unknown :
      (body : SendOtpBody)
      → body.type ≡ CodeType.forgot_password
      → count (has_email body.email) w.users ≡ 0
      → send_otp body w ≡ (err (rpc email_not_found), record w { tick = w.tick + 1 })
  unfolding send_otp find_unique_user
  send_otp-unknown body kind no_user =
      elim (find_cases s.users live.users w.tick (has_email body.email) w.users) [
        | inl (e, zero) ↦
            let same = ap (λ x. same_type x CodeType.forgot_password) kind in ground arith
        | inr (u, e, hit, mem) ↦
            let never = count-mem (has_email body.email) w.users no_user mem in
            absurd (ground arith)
      ]

-- A new password for one user, and the code that it took gone.
pub record IsReset ⦃p : Platform⦄ (body : ForgotPasswordBody) (w w' : World) : Type 0 where
  pub user : User
  pub mem : Memᴰ user w.users
  pub by_email : user.email ≡ body.email
  pub alive : user.deleted_at ≡ none
  pub held : VerificationCode
  pub held_mem : Memᴰ held w.codes
  pub held_email : held.email ≡ body.email
  pub held_code : held.code ≡ body.code
  pub held_type : held.type ≡ CodeType.forgot_password
  pub in_time : (t : ℕ) × (p.clock t ≤ held.expires_at)
  pub hashed : String
  pub is_hashed : (t : ℕ) × (p.hash t body.new_password salt_rounds ≡ ok hashed)
  pub left : w' ≡ record w {
    users =
        map
          (λ u.
            if u.id == user.id && not (is_some u.deleted_at)
            then record u { password = hashed }
            else u)
          w.users;
    codes = keep (λ c. not (where_code body.email CodeType.forgot_password body.code c)) w.codes;
    tick = w'.tick;
  }

module _ ⦃p : Platform⦄ (s : SoundTables p) (w : World) where
  -- Both halves of the `Promise.all`, in whichever order.
  reset-ok :
      (email code : String) (id : ℕ) (hashed : String) (c : VerificationCode) (u : User)
      {w' : World}
      → promise_all p
          (delete_verification_code email CodeType.forgot_password code)
          (update_password id hashed)
          w
        ≡ (ok (c, u), w')
      → w' ≡ record w {
        users =
            map
              (λ u.
                if u.id == id && not (is_some u.deleted_at)
                then record u { password = hashed }
                else u)
              w.users;
        codes = keep (λ c. not (where_code email CodeType.forgot_password code c)) w.codes;
        tick = w'.tick;
      }
  reset-ok email code id hashed c u {w'} h =
      elim (promise_all-ok p (delete_verification_code email CodeType.forgot_password code)
        (update_password id hashed) w c u w' h) [
          | inl (w₁, e₁, e₂) ↦
              let q₁ = delete_verification_code-ok s w email code CodeType.forgot_password c e₁ in
              let q₂ = update_password-ok s w₁ id hashed u e₂ in ground arith
          | inr (w₁, e₁, e₂) ↦
              let q₁ = update_password-ok s w id hashed u e₁ in
              let q₂ = delete_verification_code-ok s w₁ email code CodeType.forgot_password c e₂ in
              ground arith
        ]

module _ ⦃p : Platform⦄ (s : SoundTables p) (w : World) where
  -- Given sound tables: when forgotPassword returns, the request held a FORGOT_PASSWORD code for
  -- the address of a user that had not expired; the password of that user is a hash of the new
  -- one, the code is gone, and nothing else has changed.
  pub forgot_password-IsReset :
      (body : ForgotPasswordBody) {w' : World}
      → forgot_password body w ≡ (ok tt, w')
      → IsReset body w w'
  unfolding forgot_password
  forgot_password-IsReset body {w'} h =
      let (o, e₁, h₁) = step-ok (find_unique_user body.email w) h in
      let (user, e₂, h₂) = found-ok o _ _ _ h₁ in
      let w₁ = (find_unique_user body.email w).1 in
      let (by_email, alive, mem, q₁) =
        find_user-some s w body.email user {w' = w₁} (ground arith) in
      let (c, e₃, h₃) =
        step-ok (validate_verification_code body.email body.code CodeType.forgot_password w₁) h₂ in
      let (c_mem, c_email, c_code, c_type, early, q₂) =
        validate-ok w₁ body.email body.code CodeType.forgot_password s c e₃ in
      let (late, h₄) = guard-ok (ltb c.expires_at (p.clock _)) _ _ _ h₃ in
      let (hashed, e₅, h₅) = step-ok (hash body.new_password _) h₄ in
      let (is_hashed, q₄) = hash-ok _ body.new_password hashed e₅ in
      let (pair, e₆, h₆) = step-ok (promise_all p _ _ _) h₅ in
      let q₃ = reset-ok s _ body.email body.code user.id hashed pair.0 pair.1 e₆ in
      let same : w₁.codes ≡ w.codes = ground arith in
      record {
        user = user;
        mem = mem;
        by_email = by_email;
        alive = alive;
        held = c;
        held_mem = rw same at c_mem;
        held_email = c_email;
        held_code = c_code;
        held_type = c_type;
        in_time = (w₁.tick + 1, early);
        hashed = hashed;
        is_hashed = is_hashed;
        left = ground arith;
      }
