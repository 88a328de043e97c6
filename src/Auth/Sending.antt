-- ===== src/Auth/Sending.antt =====
-- When `sendOTP` returns.
use capstone_home_care_be_mi.Common.{
  utf16_length, ◌≤◌, ℕ, ◌+◌, ◌≡◌, ◌≢◌, inl, inr, refl, String, none, count, count-keep_covered,
  count-mem, arith, Bool-cases, ap, ◌∙◌,
}
use capstone_home_care_be_mi.Data.{VerificationCode, NewVerificationCode, CodeType, same_type}
use capstone_home_care_be_mi.Errors.{ok}
use capstone_home_care_be_mi.Platform.{Platform, Email, CodeFits, code_clash, find_cases}
use capstone_home_care_be_mi.Platform.Sound.{SoundTables, LiveTables, InRange}
use capstone_home_care_be_mi.World.{World}
use capstone_home_care_be_mi.Services.{send_otp_email, otp_email}
use capstone_home_care_be_mi.Helpers.{generate_otp}
use capstone_home_care_be_mi.Helpers.Digits.{generate_otp-utf16_length}
use capstone_home_care_be_mi.Repos.{find_unique_user, create_verification_code}
use capstone_home_care_be_mi.Auth.Bodies.{SendOtpBody}
use capstone_home_care_be_mi.Auth.Service.{send_otp}
use capstone_home_care_be_mi.Auth.Codes.{codes_for, same_type-eq}
use capstone_home_care_be_mi.Auth.Recovery.{has_email}

module _ ⦃p : Platform⦄ (s : SoundTables p) (live : LiveTables p) (range : InRange p) where
  -- A code that fits can be stored, whatever codes the address has.
  create_verification_code_returns :
      (w : World) (n : NewVerificationCode)
      → CodeFits n
      → (c : VerificationCode) × ((create_verification_code n w).0 ≡ ok c)
  unfolding create_verification_code
  create_verification_code_returns w n fits =
      let (a, e₁) = live.codes.delete_many-live w.tick (codes_for n.email n.type) w.codes in
      let q = s.codes.delete_many-ok w.tick (codes_for n.email n.type) w.codes a.0 a.1 e₁ in
      let apart =
        count-keep_covered (codes_for n.email n.type) (code_clash n) w.codes
          (λ c h. ground arith) in
      let free : count (code_clash n) a.1 ≡ 0 = ap (count (code_clash n)) q ∙ apart in
      let (b, e₂) = live.codes.create-live (w.tick + 1) n a.1 fits free in (b.0, ground arith)

  send_otp_email_returns :
      (w : World) (email otp : String)
      → ((t : ℕ) (e : Email) → p.send_email t e ≡ ok none)
      → (send_otp_email email otp w).0 ≡ ok none
  unfolding send_otp_email
  send_otp_email_returns w email otp up = let sent = up w.tick (otp_email email otp) in ground arith

  generate_otp_returns :
      (w : World) → (code : String) × ((generate_otp w).0 ≡ ok code) × (utf16_length code ≡ 6)
  unfolding generate_otp
  generate_otp_returns w =
      (_, refl, (generate_otp-utf16_length range w (generate_otp w).1 _ refl).0)

module _ ⦃p : Platform⦄ (s : SoundTables p) (live : LiveTables p) (range : InRange p)
    (w : World) where
  -- Given sound and live tables, a randomInt that keeps its bounds and a mail service that sends:
  -- sendOTP returns for an address of at most 500 characters, unless the code is for registering
  -- an address that a user has, or for a forgotten password of an address that no user has.
  pub send_otp_returns :
      (body : SendOtpBody)
      → utf16_length body.email ≤ 500
      → (body.type ≡ CodeType.register → count (has_email body.email) w.users ≡ 0)
      → (body.type ≡ CodeType.forgot_password → count (has_email body.email) w.users ≢ 0)
      → ((t : ℕ) (e : Email) → p.send_email t e ≡ ok none)
      → (send_otp body w).0 ≡ ok tt
  unfolding send_otp find_unique_user
  send_otp_returns body short new known up =
      let v = record w { tick = w.tick + 1 } in
      let (code, e₁, six) = generate_otp_returns s live range v in
      let v₁ = (generate_otp v).1 in
      let n : NewVerificationCode = record {
        email = body.email;
        type = body.type;
        code = code;
        expires_at = p.clock v₁.tick + p.ms (p.config "OTP_EXPIRES_IN");
      } in
      let (c, e₂) =
        create_verification_code_returns s live range (record v₁ { tick = v₁.tick + 1 }) n
          (short, omega (arith, six)) in
      let v₂ = (create_verification_code n (record v₁ { tick = v₁.tick + 1 })).1 in
      let e₃ = send_otp_email_returns s live range v₂ body.email code up in
      elim (find_cases s.users live.users w.tick (has_email body.email) w.users) [
        | inl (e, zero) ↦ elim (Bool-cases (same_type body.type CodeType.forgot_password)) [
          | inl is ↦ absurd (known (same_type-eq body.type CodeType.forgot_password is) zero)
          | inr other ↦ ground arith
        ]
        | inr (u, e, hit, mem) ↦ elim (Bool-cases (same_type body.type CodeType.register)) [
          | inl is ↦
              let zero = new (same_type-eq body.type CodeType.register is) in
              let never = count-mem (has_email body.email) w.users zero mem in absurd (ground arith)
          | inr other ↦ ground arith
        ]
      ]
