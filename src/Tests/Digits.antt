-- ===== src/Tests/Digits.antt =====
-- The text of a number at concrete inputs.
use capstone_home_care_be_mi.Common.{◌≡◌, ◌≤◌, ◌<◌, ℕ, refl, some, utf16_length}
use capstone_home_care_be_mi.Errors.{ok}
use capstone_home_care_be_mi.Helpers.{decimal, generate_otp}
use capstone_home_care_be_mi.Helpers.Digits.{number_from, generate_otp-utf16_length}
use capstone_home_care_be_mi.Tests.Sample.{sample, sample-InRange}
use capstone_home_care_be_mi.Tests.Cases.{before}

decimal-one_two_three : decimal 123 ≡ "123"
unfolding decimal
decimal-one_two_three = refl

first_code : generate_otp ⦃p = sample⦄ before ≡ (ok "100000", (generate_otp ⦃p = sample⦄ before).1)
unfolding generate_otp decimal
first_code = refl

generate_otp-utf16_length_example :
    (utf16_length "100000" ≡ 6)
    × (n : ℕ) × (number_from 0 "100000" ≡ some n)
    × (100_000 ≤ n)
    × (n < 1_000_000)
generate_otp-utf16_length_example =
    generate_otp-utf16_length ⦃p = sample⦄ sample-InRange before
      (generate_otp ⦃p = sample⦄ before).1 "100000" first_code
