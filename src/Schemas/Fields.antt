-- ===== src/Schemas/Fields.antt =====
-- What a field of an accepted body says, for each way to write a field.
use capstone_home_care_be_mi.Common.{
  ◌≡◌, ◌⊎◌, inl, inr, refl, String, Bool, true, false, Option, some, none, List, [], ◌∷◌, all, All,
  arith, eq_iff,
}
use capstone_home_care_be_mi.Schemas.Zod.{
  Value, text, Check, string, Fields, lookup, Zod, field_ok, accepts, Schema, shape, is_strict,
  has_key, no_issue, refinements,
}
use capstone_home_care_be_mi.Schemas.Bodies.{field, optional_field}

all-All : {A : Type 0} (p : A → Bool) (xs : List A) → all p xs ≡ true → All (λ x. p x ≡ true) xs
all-All p [] h = tt
all-All p (x ∷ xs) h = (ground arith, all-All p xs (ground arith))

module _ (z : Zod) where
  pub field-Passed :
      (key : String) (checks : List Check) (i o : Option Value)
      → field_ok z (field key (string false checks)) i o ≡ true
      → (s : String) × (o ≡ some (text s)) × All (λ c. z.check c s ≡ true) checks
  field-Passed key checks (some (text a)) (some (text b)) h =
      (b, refl, all-All (λ c. z.check c b) checks (ground arith))
  field-Passed key checks _ _ h = absurd (ground arith)

  -- A field with `trim()`: the data is what is left of the text that was given.
  pub field-Trimmed :
      (key : String) (checks : List Check) (i o : Option Value)
      → field_ok z (field key (string true checks)) i o ≡ true
      → (s : String) × (o ≡ some (text s))
        × (i_text : String) × (i ≡ some (text i_text))
        × (s ≡ z.trim i_text)
        × All (λ c. z.check c s ≡ true) checks
  field-Trimmed key checks (some (text a)) (some (text b)) h = (
    b,
    refl,
    a,
    refl,
    ground (arith, eq_iff b (z.trim a)),
    all-All (λ c. z.check c b) checks (ground arith),
  )
  field-Trimmed key checks _ _ h = absurd (ground arith)

  pub field-Optional :
      (key : String) (checks : List Check) (i o : Option Value)
      → field_ok z (optional_field key (string false checks)) i o ≡ true
      → (o ≡ none) ⊎ ((s : String) × (o ≡ some (text s)) × All (λ c. z.check c s ≡ true) checks)
  field-Optional key checks none none h = inl refl
  field-Optional key checks (some (text a)) (some (text b)) h =
      inr (b, refl, all-All (λ c. z.check c b) checks (ground arith))
  field-Optional key checks _ _ h = absurd (ground arith)

  pub accepts-fields :
      (s : Schema) (v out : Fields)
      → accepts z s v out ≡ true
      → All (λ f. field_ok z f (lookup f.key v) (lookup f.key out) ≡ true) (shape s)
  accepts-fields s v out h =
      all-All (λ f. field_ok z f (lookup f.key v) (lookup f.key out)) (shape s) (ground arith)

  pub accepts-strict :
      (s : Schema) (v out : Fields)
      → accepts z s v out ≡ true
      → is_strict s ≡ true
      → All (λ kv. has_key (shape s) kv.0 ≡ true) v
  accepts-strict s v out h strict = all-All (λ kv. has_key (shape s) kv.0) v (ground arith)

  pub accepts-refined :
      (s : Schema) (v out : Fields)
      → accepts z s v out ≡ true
      → All (λ r. no_issue (r (λ k. lookup k out)) ≡ true) (refinements s)
  accepts-refined s v out h =
      all-All (λ r. no_issue (r (λ k. lookup k out))) (refinements s) (ground arith)
