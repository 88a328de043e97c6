-- ===== src/Helpers/Digits.antt =====
-- The text of a number: how long it is, and that the number can be read back from it.
use Prim.Native.Char.{code}
use capstone_home_care_be_mi.Common.{
  ℕ, zero, suc, ◌+◌, ◌-◌, ◌*◌, ◌/◌, ◌%◌, ◌≤◌, ◌<◌, ◌≡◌, refl, ◌∙◌, Bool-cases, inl, inr, ◌||◌,
  false, String, Option, none, some, ltb, utf16_length, if◌then◌else◌, arith,
}
use capstone_home_care_be_mi.Errors.{ok}
use capstone_home_care_be_mi.Platform.{Platform}
use capstone_home_care_be_mi.Platform.Sound.{InRange}
use capstone_home_care_be_mi.World.{World}
use capstone_home_care_be_mi.Helpers.Otp.{digit, decimal_before, decimal, generate_otp}

code-digit : (n : ℕ) → n < 10 → code (digit n) ≡ 48 + n
code-digit zero h = refl
code-digit (suc zero) h = refl
code-digit (suc (suc zero)) h = refl
code-digit (suc (suc (suc zero))) h = refl
code-digit (suc (suc (suc (suc zero)))) h = refl
code-digit (suc (suc (suc (suc (suc zero))))) h = refl
code-digit (suc (suc (suc (suc (suc (suc zero)))))) h = refl
code-digit (suc (suc (suc (suc (suc (suc (suc zero))))))) h = refl
code-digit (suc (suc (suc (suc (suc (suc (suc (suc zero)))))))) h = refl
code-digit (suc (suc (suc (suc (suc (suc (suc (suc (suc n))))))))) h = omega arith

abbrev pub power_of_ten : ℕ → ℕ
power_of_ten zero = 1
power_of_ten (suc k) = 10 * power_of_ten k

power_of_ten-pos : (k : ℕ) → 1 ≤ power_of_ten k
power_of_ten-pos zero = omega arith
power_of_ten-pos (suc k) = omega (arith, power_of_ten-pos k)

power_of_ten-gt : (k : ℕ) → k < power_of_ten k
power_of_ten-gt zero = omega arith
power_of_ten-gt (suc k) = omega (arith, power_of_ten-gt k)

utf16_length-decimal_before :
    (k f n : ℕ) (rest : String)
    → power_of_ten k ≤ n
    → n < 10 * power_of_ten k
    → k < f
    → utf16_length (decimal_before f n rest) ≡ suc k + utf16_length rest
unfolding decimal_before
utf16_length-decimal_before k zero n rest low high enough = absurd (omega arith)
utf16_length-decimal_before zero (suc f) n rest low high enough = ground (arith, code-digit n)
utf16_length-decimal_before (suc k) (suc f) n rest low high enough = ground (
  arith,
  power_of_ten-pos k,
  code-digit (n % 10),
  utf16_length-decimal_before k f (n / 10) (String.◌∷◌ (digit (n % 10)) rest),
)

-- A round for each digit is enough, and more rounds than digits change nothing.
decimal_before-same :
    (k f g n : ℕ) (rest : String)
    → n < power_of_ten (suc k)
    → k < f
    → k < g
    → decimal_before f n rest ≡ decimal_before g n rest
unfolding decimal_before
decimal_before-same k zero g n rest high enough enough' = absurd (omega arith)
decimal_before-same k (suc f) zero n rest high enough enough' = absurd (omega arith)
decimal_before-same zero (suc f) (suc g) n rest high enough enough' = ground arith
decimal_before-same (suc k) (suc f) (suc g) n rest high enough enough' =
    ground (arith, decimal_before-same k f g (n / 10) (String.◌∷◌ (digit (n % 10)) rest))

-- A decimal text, behind the number read so far.
abbrev pub number_from : ℕ → String → Option ℕ
number_from n String.[] = some n
number_from n (String.◌∷◌ c s) =
    let rest = number_from (n * 10 + (code c - 48)) s in
    if ltb (code c) 48 || ltb 57 (code c) then none else rest

number_from-digit :
    (m d : ℕ) (rest : String)
    → d < 10
    → number_from m (String.◌∷◌ (digit d) rest) ≡ number_from (m * 10 + d) rest
number_from-digit m d rest h =
    let in_range : (ltb (48 + d) 48 || ltb 57 (48 + d)) ≡ false = ground arith in
    let same : m * 10 + (48 + d - 48) ≡ m * 10 + d = omega arith in
    rw (code-digit d h, in_range, same) refl

number_from-decimal_before :
    (f n : ℕ) (rest : String) → n < f → number_from 0 (decimal_before f n rest) ≡ number_from n rest
unfolding decimal_before
number_from-decimal_before zero n rest enough = absurd (omega arith)
number_from-decimal_before (suc f) n rest enough = elim (Bool-cases (ltb n 10)) [
  | inl small ↦
      let same : 0 * 10 + n ≡ n = omega arith in
      rw small (number_from-digit 0 n rest (ground arith) ∙ rw same refl)
  | inr big ↦
      let digits =
        number_from-decimal_before f (n / 10) (String.◌∷◌ (digit (n % 10)) rest) (ground arith) in
      let same : n / 10 * 10 + n % 10 ≡ n = omega arith in
      let last = number_from-digit (n / 10) (n % 10) rest (omega arith) in
      rw big (digits ∙ last ∙ rw same refl)
]

-- The decimal text of a number, read digit by digit, gives the number.
pub number_from-decimal : (n : ℕ) → number_from 0 (decimal n) ≡ some n
unfolding decimal
number_from-decimal n = number_from-decimal_before (n + 1) n String.[] (omega arith)

pub utf16_length-decimal :
    (k n : ℕ) → power_of_ten k ≤ n → n < 10 * power_of_ten k → utf16_length (decimal n) ≡ suc k
unfolding decimal
utf16_length-decimal k n low high =
    utf16_length-decimal_before k (n + 1) n String.[] low high (omega (arith, power_of_ten-gt k))
    ∙ omega arith

module _ ⦃p : Platform⦄ (range : InRange p) where
  -- Given that randomInt keeps its bounds: the code that generateOTP makes has exactly six
  -- characters, and reads as a number from 100000 to 999999.
  pub generate_otp-utf16_length :
      (w w' : World) (otp : String)
      → generate_otp w ≡ (ok otp, w')
      → (utf16_length otp ≡ 6)
        × (n : ℕ) × (number_from 0 otp ≡ some n)
        × (100_000 ≤ n)
        × (n < 1_000_000)
  unfolding generate_otp
  generate_otp-utf16_length w w' otp h =
      let n = p.random_int w.tick 100_000 1_000_000 in
      let (low, high) = range w.tick 100_000 1_000_000 (omega arith) in
      let same : decimal n ≡ otp = ground arith in
      rw (← same) (utf16_length-decimal 5 n low high, n, number_from-decimal n, low, high)
