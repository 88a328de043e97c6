-- ===== src/Tests/Codes.antt =====
-- The test of a code, on a table of two codes.
use capstone_home_care_be_mi.Common.{ap, ◌≡◌, ◌≤◌, ◌<◌, refl, true, Memᴰ, arith}
use mathlib.Core.List.Memᴰ.{not-nil}
use capstone_home_care_be_mi.Data.{VerificationCode, CodeType}
use capstone_home_care_be_mi.Errors.{ok}
use capstone_home_care_be_mi.Repos.{find_unique_verification_code, where_code}
use capstone_home_care_be_mi.Auth.{validate_verification_code}
use capstone_home_care_be_mi.Tests.Sample.{sample}
use capstone_home_care_be_mi.Tests.Cases.{before, fresh_code}

-- The two codes in the table.
validate_bob :
    validate_verification_code ⦃p = sample⦄ "bob@x" "111111" CodeType.register before
    ≡ (ok fresh_code, record before { tick = 2 })
unfolding validate_verification_code find_unique_verification_code
validate_bob = refl

old_codes_late :
    (c : VerificationCode)
    → Memᴰ c before.codes
    → where_code "eve@x" CodeType.register "222222" c ≡ true
    → c.expires_at < 100
old_codes_late c (Memᴰ.head e) hit = absurd (
    ground
      (arith, ap (λ (x : VerificationCode). where_code "eve@x" CodeType.register "222222" x) e))
old_codes_late c (Memᴰ.tail (Memᴰ.head e)) hit = rw e (omega arith)
old_codes_late c (Memᴰ.tail (Memᴰ.tail m)) hit = absurd (not-nil m)

fresh_codes_early :
    (c : VerificationCode)
    → Memᴰ c before.codes
    → where_code "bob@x" CodeType.register "111111" c ≡ true
    → 100 ≤ c.expires_at
fresh_codes_early c (Memᴰ.head e) hit = rw e (omega arith)
fresh_codes_early c (Memᴰ.tail (Memᴰ.head e)) hit = absurd (
    ground
      (arith, ap (λ (x : VerificationCode). where_code "bob@x" CodeType.register "111111" x) e))
fresh_codes_early c (Memᴰ.tail (Memᴰ.tail m)) hit = absurd (not-nil m)
