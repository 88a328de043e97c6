-- ===== src/World/Laws.antt =====
-- Taking apart a run that returned: of a sequence, a guard, a handler and a `Promise.all`.
use capstone_home_care_be_mi.Common.{
  List, [], ◌∷◌, if◌then◌else◌, Option, none, some, ◌≢◌, ◌≡◌, refl, ◌⊎◌, inl, inr, Bool, true,
  false, arith, Bool-cases,
}
use capstone_home_care_be_mi.Errors.{Error, Result, ok, err}
use capstone_home_care_be_mi.Platform.{Platform}
use capstone_home_care_be_mi.World.{World, Action, catch, throw, promise_all, promise_all_three}

pub Result-cases :
    {A : Type 0} (r : Result A) → ((a : A) × (r ≡ ok a)) ⊎ ((e : Error) × (r ≡ err e))
Result-cases (ok a) = inl (a, refl)
Result-cases (err e) = inr (e, refl)

-- A sequence: the first call returned, and the rest went on with what it returned.
pub step-ok :
    {A B : Type 0} (r : Result A × World) {k : A → Result B × World} {b : B} {w' : World}
    → Path (Result B × World) (elim r.0 [ ok a ↦ k a | err e ↦ (err e, r.1) ]) (ok b, w')
    → (a : A) × (r ≡ (ok a, r.1)) × (k a ≡ (ok b, w'))
step-ok (ok a, v) h = (a, refl, h)
step-ok (err e, v) h = absurd (ground arith)

-- `if (c) throw e`, and what follows it.
pub guard-ok :
    {B : Type 0} (c : Bool) (e : Error) (v : World) (k : Unit {0} → Result B × World) {b : B}
    {w' : World}
    → Path
        (Result B × World)
        (elim (if c then err e else ok tt) [ ok a ↦ k a | err x ↦ (err x, v) ])
        (ok b, w')
    → (c ≡ false) × (k tt ≡ (ok b, w'))
guard-ok true e v k h = absurd (ground arith)
guard-ok false e v k h = (refl, h)

-- `if (!o) throw e`, and what follows it.
pub found-ok :
    {A B : Type 0} (o : Option A) (e : Error) (v : World) (k : A → Action B) {b : B} {w' : World}
    → Path
        (Result B × World)
        ((elim o as (λ _. Action B) [ none ↦ throw e | some a ↦ k a ]) v)
        (ok b, w')
    → (a : A) × (o ≡ some a) × (k a v ≡ (ok b, w'))
found-ok none e v k h = absurd (ground arith)
found-ok (some a) e v k h = (a, refl, h)

-- The first row of an answer, or a throw.
pub first-ok :
    {A B : Type 0} (xs : List A) (e : Error) (v : World) (k : A → Action B) {b : B} {w' : World}
    → Path
        (Result B × World)
        ((elim xs as (λ _. Action B) [ [] ↦ throw e | x ∷ _ ↦ k x ]) v)
        (ok b, w')
    → (x : A) × (rest : List A) × (xs ≡ x ∷ rest) × (k x v ≡ (ok b, w'))
first-ok [] e v k h = absurd (ground arith)
first-ok (x ∷ xs) e v k h = (x, xs, refl, h)

pub promise_all-ok :
    {A B : Type 0} (p : Platform) (a : Action A) (b : Action B) (w : World) (x : A) (y : B)
    (w' : World)
    → promise_all p a b w ≡ (ok (x, y), w')
    → ((w₁ : World) × (a w ≡ (ok x, w₁)) × (b w₁ ≡ (ok y, w')))
      ⊎ ((w₁ : World) × (b w ≡ (ok y, w₁)) × (a w₁ ≡ (ok x, w')))
unfolding promise_all
promise_all-ok p a b w x y w' h = elim (Bool-cases (p.second_first w.tick)) [
  | inl e ↦ inr ((b w).1, ground arith, ground arith)
  | inr e ↦ inl ((a w).1, ground arith, ground arith)
]

pub promise_all_three-ok :
    {A B C : Type 0} (p : Platform) (a : Action A) (b : Action B) (c : Action C) (w : World) (x : A)
    (y : B) (z : C) (w' : World)
    → promise_all_three p a b c w ≡ (ok (x, (y, z)), w')
    → (promise_all p a (promise_all p b c) w ≡ (ok (x, (y, z)), w'))
      ⊎ (promise_all p b (promise_all p a c) w ≡ (ok (y, (x, z)), w'))
unfolding promise_all_three
promise_all_three-ok p a b c w x y z w' h = elim (Bool-cases (p.second_apart w.tick)) [
  | inr e ↦ inl (ground arith)
  | inl e ↦ elim (Result-cases (promise_all p b (promise_all p a c) w).0) [
    | inl (r, q) ↦ inr (ground arith)
    | inr (r, q) ↦ absurd (ground arith)
  ]
]

-- A query that returned, with the rows that it left.
pub rows-ok :
    {A Rows : Type 0} (r : Result (A × Rows)) (k : A × Rows → World) (v : Error → World) {a : A}
    {w' : World}
    → Path (Result A × World) (elim r [ ok x ↦ (ok x.0, k x) | err e ↦ (err e, v e) ]) (ok a, w')
    → (rows : Rows) × (r ≡ ok (a, rows)) × (w' ≡ k (a, rows))
rows-ok (ok (x, rows)) k v h = (rows, ground arith, ground arith)
rows-ok (err e) k v h = absurd (ground arith)

-- What a handler that always throws has let through.
pub catch-ok :
    {A : Type 0} (m : Action A) (h : Error → Action A) (w : World) (a : A) (w' : World)
    → ((e : Error) (v : World) → (h e v).0 ≢ ok a)
    → catch m h w ≡ (ok a, w')
    → m w ≡ (ok a, w')
catch-ok {A} m h w a w' never e = go (m w) refl
  where
    go : (r : Result A × World) → m w ≡ r → m w ≡ (ok a, w')
    go (ok x, v) q = ground arith
    go (err x, v) q = absurd (never x v (ground arith))
