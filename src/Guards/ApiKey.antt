-- ===== src/Guards/ApiKey.antt =====
-- `PaymentAPIKeyGuard` on the headers that Node hands on, whose names are in lower case.
use Prim.Native.Char.{code}
use capstone_home_care_be_mi.Common.{
  ◌≡◌, refl, Bool, true, false, not, ◌&&◌, String, none, List, [], ◌∷◌, All, leb, ◌===◌, eq_iff,
  arith, Bool-cases, inl, inr,
}
use capstone_home_care_be_mi.Errors.{err, plain_unauthorized}
use capstone_home_care_be_mi.Platform.{Platform}
use capstone_home_care_be_mi.Guards.{Context, header, second_word, payment_api_key_guard}

-- No letter from A to Z.
abbrev pub lower_case : String → Bool
lower_case String.[] = true
lower_case (String.◌∷◌ c s) = not (leb 65 (code c) && leb (code c) 90) && lower_case s

capital : lower_case "Authorization" ≡ false
capital = refl

-- A name with a capital letter is never found.
header-none :
    (name : String) (headers : List (String × String))
    → lower_case name ≡ false
    → All (λ h. lower_case h.0 ≡ true) headers
    → header name headers ≡ none
header-none name [] up low = refl
header-none name ((key, value) ∷ rest) up (low, lows) = elim (Bool-cases (key === name)) [
  | inl e ↦ absurd (ground (arith, (eq_iff key name).0 e))
  | inr e ↦ rw e (header-none name rest up lows)
]

module _ ⦃p : Platform⦄ where
  -- On a request whose header names are in lower case, PaymentAPIKeyGuard refuses, whatever the
  -- key is.
  pub payment_api_key_guard-refuses :
      (c : Context)
      → All (λ h. lower_case h.0 ≡ true) c.request.headers
      → payment_api_key_guard c ≡ (err plain_unauthorized, c)
  unfolding payment_api_key_guard second_word
  payment_api_key_guard-refuses c low =
      let missing = header-none "Authorization" c.request.headers capital low in ground arith
