-- ===== src/Gateway/Deliver.antt =====
-- What an answer of a handler of the gateway goes back to, and what its failures are.
use capstone_home_care_be_mi.Common.{◌≡◌, ◌⊎◌, inl, inr, refl, Option, some, none, arith}
use capstone_home_care_be_mi.Errors.{ok}
use capstone_home_care_be_mi.World.{World, Action}
use capstone_home_care_be_mi.World.Laws.{Result-cases}
use capstone_home_care_be_mi.Schemas.Zod.{Fields, Schema}
use capstone_home_care_be_mi.Gateway.Wire.{Framework, answer, invalid_body, deliver, handle}

pub Option-cases : {A : Type 0} (o : Option A) → (o ≡ none) ⊎ ((a : A) × (o ≡ some a))
Option-cases none = inl refl
Option-cases (some a) = inr (a, refl)

module _ {A B : Type 0} (f : Framework) (schema : Schema) (read : Fields → Option B)
    (service : B → Action A) (body : Fields) (w : World) where
  -- The service was called with what was read of the data, and returned.
  pub record IsServed (a : A) (w' : World) : Type 0 where
    pub out : Fields
    pub parsed : f.zod.parse schema body ≡ some out
    pub called : B
    pub reads : read out ≡ some called
    pub returned : service called w ≡ (ok a, w')

  pub handle-IsServed :
      (a : A) {w' : World} → handle f schema read service body w ≡ (answer a, w') → IsServed a w'
  unfolding handle deliver
  handle-IsServed a {w'} h = elim (Option-cases (f.zod.parse schema body)) [
    | inl e ↦ absurd (ground arith)
    | inr (out, e) ↦ elim (Option-cases (read out)) [
      | inl q ↦ absurd (ground arith)
      | inr (b, q) ↦ elim (Result-cases (service b w).0) [
        | inr (x, r) ↦ absurd (ground arith)
        | inl (x, r) ↦ record {
          out = out;
          parsed = e;
          called = b;
          reads = q;
          returned = ground arith;
        }
      ]
    ]
  ]

  -- Where a refused body changes nothing, and what is read of the data is always a body.
  pub handle-cases :
      ((out : Fields) → f.zod.parse schema body ≡ some out → (b : B) × (read out ≡ some b))
      → (handle f schema read service body w ≡ (invalid_body, w))
        ⊎ ((b : B) × (handle f schema read service body w ≡ deliver f (some b) service w))
  unfolding handle
  handle-cases typed = elim (Option-cases (f.zod.parse schema body)) [
    | inl e ↦ inl (ground arith)
    | inr (out, e) ↦ let (b, q) = typed out e in inr (b, ground arith)
  ]
