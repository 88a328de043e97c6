-- ===== src/Helpers/Otp.antt =====
-- `generateOTP`: the decimal text of a random number.
use Prim.Native.Char.{Char, char}
use capstone_home_care_be_mi.Common.{ℕ, zero, suc, ◌+◌, ◌/◌, ◌%◌, String, ltb, if◌then◌else◌}
use capstone_home_care_be_mi.Platform.{Platform}
use capstone_home_care_be_mi.World.{Action, pure, sample, ◌>>=◌}

-- The character of a decimal digit.
abbrev pub digit : ℕ → Char
digit zero = char b'0' tt
digit (suc zero) = char b'1' tt
digit (suc (suc zero)) = char b'2' tt
digit (suc (suc (suc zero))) = char b'3' tt
digit (suc (suc (suc (suc zero)))) = char b'4' tt
digit (suc (suc (suc (suc (suc zero))))) = char b'5' tt
digit (suc (suc (suc (suc (suc (suc zero)))))) = char b'6' tt
digit (suc (suc (suc (suc (suc (suc (suc zero))))))) = char b'7' tt
digit (suc (suc (suc (suc (suc (suc (suc (suc zero)))))))) = char b'8' tt
digit _ = char b'9' tt

-- The digits of `n` before `rest`, on fuel: a number below 10 ^ f has at most f digits.
unfoldable pub decimal_before : ℕ → ℕ → String → String
decimal_before zero n rest = rest
decimal_before (suc f) n rest =
    let more = decimal_before f (n / 10) (String.◌∷◌ (digit (n % 10)) rest) in
    if ltb n 10 then String.◌∷◌ (digit n) rest else more

-- `String(n)`
unfoldable pub decimal : ℕ → String
unfolding decimal_before
decimal n = decimal_before (n + 1) n String.[]

module _ ⦃p : Platform⦄ where
  -- `String(randomInt(100000, 1000000))`
  unfoldable pub generate_otp : Action String
  generate_otp = do n ← sample (λ t. p.random_int t 100_000 1_000_000); pure (decimal n)
