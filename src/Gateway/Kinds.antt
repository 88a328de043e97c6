-- ===== src/Gateway/Kinds.antt =====
-- How each kind of field of an accepted body is read.
use capstone_home_care_be_mi.Common.{
  ◌≡◌, inl, inr, refl, ℕ, String, true, Option, some, none, List, [], ◌∷◌, any, ◌===◌, arith,
  Bool-cases,
}
use capstone_home_care_be_mi.Data.{CodeType, CompanyType, VerificationStatus}
use capstone_home_care_be_mi.Schemas.Zod.{
  Value, text, number, null, Check, string, enumeration, Kind, Zod, field_ok,
}
use capstone_home_care_be_mi.Schemas.Bodies.{field, nullish_field}
use capstone_home_care_be_mi.Schemas.Forms.{IsCode}
use capstone_home_care_be_mi.Gateway.Payloads.{
  optional_text_of, code_type_of, company_type_of, verification_status_of,
}

abbrev pub type_names : List String
type_names = "REGISTER" ∷ "FORGOT_PASSWORD" ∷ "DISABLE_2FA" ∷ "LOGIN" ∷ []

abbrev pub company_names : List String
company_names =
    "SOLE_PROPRIETORSHIP" ∷ "LIMITED_LIABILITY" ∷ "JOINT_STOCK" ∷ "PARTNERSHIP" ∷ "OTHER" ∷ []

abbrev pub status_names : List String
status_names = "PENDING" ∷ "VERIFIED" ∷ "REJECTED" ∷ []

pub one_type :
    (s : String) → any (λ n. n === s) type_names ≡ true → (t : CodeType) × (code_type_of s ≡ some t)
one_type s h = elim (Bool-cases ("REGISTER" === s)) [
  | inl a ↦ (CodeType.register, ground arith)
  | inr a ↦ elim (Bool-cases ("FORGOT_PASSWORD" === s)) [
    | inl b ↦ (CodeType.forgot_password, ground arith)
    | inr b ↦ elim (Bool-cases ("LOGIN" === s)) [
      | inl c ↦ (CodeType.login, ground arith)
      | inr c ↦ (CodeType.disable_2fa, ground arith)
    ]
  ]
]

pub one_company :
    (s : String)
    → any (λ n. n === s) company_names ≡ true
    → (t : CompanyType) × (company_type_of s ≡ some t)
one_company s h = elim (Bool-cases ("SOLE_PROPRIETORSHIP" === s)) [
  | inl a ↦ (CompanyType.sole_proprietorship, ground arith)
  | inr a ↦ elim (Bool-cases ("LIMITED_LIABILITY" === s)) [
    | inl b ↦ (CompanyType.limited_liability, ground arith)
    | inr b ↦ elim (Bool-cases ("JOINT_STOCK" === s)) [
      | inl c ↦ (CompanyType.joint_stock, ground arith)
      | inr c ↦ elim (Bool-cases ("PARTNERSHIP" === s)) [
        | inl d ↦ (CompanyType.partnership, ground arith)
        | inr d ↦ (CompanyType.other, ground arith)
      ]
    ]
  ]
]

pub one_status :
    (s : String)
    → any (λ n. n === s) status_names ≡ true
    → (t : VerificationStatus) × (verification_status_of s ≡ some t)
one_status s h = elim (Bool-cases ("PENDING" === s)) [
  | inl a ↦ (VerificationStatus.pending, ground arith)
  | inr a ↦ elim (Bool-cases ("VERIFIED" === s)) [
    | inl b ↦ (VerificationStatus.verified, ground arith)
    | inr b ↦ (VerificationStatus.rejected, ground arith)
  ]
]

pub optional_text_of-IsCode :
    (o : Option Value) → IsCode o → (s : Option String) × (optional_text_of o ≡ some s)
optional_text_of-IsCode o (inl e) = (none, rw e refl)
optional_text_of-IsCode o (inr (s, e, _)) = (some s, rw e refl)

module _ (z : Zod) where
  pub field-Enumerated :
      (key : String) (names : List String) (i o : Option Value)
      → field_ok z (field key (enumeration names)) i o ≡ true
      → (s : String) × (o ≡ some (text s)) × (any (λ n. n === s) names ≡ true)
  field-Enumerated key names (some (text a)) (some (text b)) h = (b, refl, ground arith)
  field-Enumerated key names _ _ h = absurd (ground arith)

  pub field-Numbered :
      (key : String) (i o : Option Value)
      → field_ok z (field key Kind.number) i o ≡ true
      → (n : ℕ) × (o ≡ some (number n))
  field-Numbered key (some (number a)) (some (number b)) h = (b, refl)
  field-Numbered key _ _ h = absurd (ground arith)

  pub field-Nullish :
      (key : String) (checks : List Check) (i o : Option Value)
      → field_ok z (nullish_field key (string true checks)) i o ≡ true
      → (s : Option String) × (optional_text_of o ≡ some s)
  field-Nullish key checks none none h = (none, refl)
  field-Nullish key checks (some null) (some null) h = (none, refl)
  field-Nullish key checks (some (text a)) (some (text b)) h = (some b, refl)
  field-Nullish key checks _ _ h = absurd (ground arith)
