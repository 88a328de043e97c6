-- ===== src/World/Keeps.antt =====
-- What holds of the state after an action, whether it returns or throws: one rule for each way to
-- build an action. In `keeps-bind` the rest of the block may use what the first call returned.
use capstone_home_care_be_mi.Common.{
  Bool-cases, inl, inr, ◌+◌, ◌≡◌, refl, Bool, true, false, Option, none, some, List, [], ◌∷◌,
  if◌then◌else◌,
}
use capstone_home_care_be_mi.Errors.{Error, Result, ok, err}
use capstone_home_care_be_mi.Platform.{Platform}
use capstone_home_care_be_mi.World.{
  World, Action, catch, throw, promise_all, promise_all_three, write,
}

module _ (I : World → Type 0) {A B : Type 0} where
  pub keeps-bind :
      (r : Result A × World) (k : A → Result B × World)
      → I r.1
      → ((a : A) → r ≡ (ok a, r.1) → I (k a).1)
      → I (elim r.0 as (λ _. Result B × World) [ ok a ↦ k a | err e ↦ (err e, r.1) ]).1
  keeps-bind (ok a, v) k i h = h a refl
  keeps-bind (err e, v) k i h = i

  pub keeps-found :
      (o : Option A) (e : Error) (k : A → Action B) (v : World)
      → I v
      → ((a : A) → o ≡ some a → I (k a v).1)
      → I ((elim o as (λ _. Action B) [ none ↦ throw e | some a ↦ k a ]) v).1
  keeps-found none e k v i h = i
  keeps-found (some a) e k v i h = h a refl

  pub keeps-option :
      (o : Option A) (n : Action B) (k : A → Action B) (v : World)
      → I (n v).1
      → ((a : A) → o ≡ some a → I (k a v).1)
      → I ((elim o as (λ _. Action B) [ none ↦ n | some a ↦ k a ]) v).1
  keeps-option none n k v i h = i
  keeps-option (some a) n k v i h = h a refl

  pub keeps-first :
      (xs : List A) (e : Error) (k : A → Action B) (v : World)
      → I v
      → ((a : A) → I (k a v).1)
      → I ((elim xs as (λ _. Action B) [ [] ↦ throw e | x ∷ _ ↦ k x ]) v).1
  keeps-first [] e k v i h = i
  keeps-first (x ∷ _) e k v i h = h x

  pub keeps-promise_all :
      (p : Platform) (a : Action A) (b : Action B) (w : World)
      → ((v : World) → I v → I (a v).1)
      → ((v : World) → I v → I (b v).1)
      → I w
      → I (promise_all p a b w).1
  unfolding promise_all
  keeps-promise_all p a b w ka kb i =
      elim (p.second_first w.tick)
        as (λ t.
          I
            (elim t as (λ _. Result (A × B) × World) [
              | false ↦ (capstone_home_care_be_mi.World.both (a w).0 (b (a w).1).0, (b (a w).1).1)
              | true ↦
                  (capstone_home_care_be_mi.World.both_swapped (a (b w).1).0 (b w).0, (a (b w).1).1)
            ]).1) [ false ↦ kb (a w).1 (ka w i) | true ↦ ka (b w).1 (kb w i) ]

module _ (I : World → Type 0) {A B C : Type 0} where
  pub keeps-promise_all_three :
      (p : Platform) (a : Action A) (b : Action B) (c : Action C) (w : World)
      → ((v : World) → I v → I (a v).1)
      → ((v : World) → I v → I (b v).1)
      → ((v : World) → I v → I (c v).1)
      → I w
      → I (promise_all_three p a b c w).1
  unfolding promise_all_three
  keeps-promise_all_three p a b c w ka kb kc i =
      let bc : (v : World) → I v → I (promise_all p b c v).1 =
        λ v j. keeps-promise_all I p b c v kb kc j in
      let ac : (v : World) → I v → I (promise_all p a c v).1 =
        λ v j. keeps-promise_all I p a c v ka kc j in
      elim (Bool-cases (p.second_apart w.tick)) [
        | inr e ↦ rw (promise_all_three, e) (keeps-promise_all I p a (promise_all p b c) w ka bc i)
        | inl e ↦ rw (promise_all_three, e) (keeps-promise_all I p b (promise_all p a c) w kb ac i)
      ]

module _ (I : World → Type 0) {B : Type 0} where
  pub keeps-guard :
      (c : Bool) (e : Error) (v : World) (k : Unit {0} → Result B × World)
      → I v
      → (c ≡ false → I (k tt).1)
      → I
          (elim (if◌then◌else◌ {0} {A = Result (Unit {0})} c (err e) (ok tt))
            as (λ _. Result B × World) [ ok a ↦ k a | err x ↦ (err x, v) ]).1
  keeps-guard true e v k i h = i
  keeps-guard false e v k i h = h refl

  pub keeps-catch :
      (m : Action B) (h : Error → Action B) (w : World)
      → I (m w).1
      → ((e : Error) (v : World) → I v → I (h e v).1)
      → I (catch m h w).1
  keeps-catch m h w i throws = go (m w) i
    where
      go :
          (r : Result B × World)
          → I r.1
          → I (elim r.0 as (λ _. Result B × World) [ ok a ↦ (ok a, r.1) | err e ↦ h e r.1 ]).1
      go (ok a, v) j = j
      go (err e, v) j = throws e v j

module _ (I : World → Type 0) (B : Type 0) where
  -- A handler that throws one of two errors.
  pub keeps-either :
      (c : Bool) (e e' : Error) (v : World)
      → I v
      → I ((if◌then◌else◌ {A = Action B} c (throw e) (throw e')) v).1
  keeps-either true e e' v i = i
  keeps-either false e e' v i = i

module _ (I : World → Type 0) {A Rows : Type 0} where
  pub keeps-write :
      (put : World → Rows → World) (f : World → Result (A × Rows)) (w : World)
      → I (record w { tick = w.tick + 1 })
      → ((a : A) (rows : Rows) → f w ≡ ok (a, rows) → I (put (record w { tick = w.tick + 1 }) rows))
      → I (write put f w).1
  keeps-write put f w i h = go (f w) refl
    where
      go :
          (r : Result (A × Rows))
          → f w ≡ r
          → I
              (elim r as (λ _. Result A × World) [
                | ok x ↦ (ok x.0, put (record w { tick = w.tick + 1 }) x.1)
                | err e ↦ (err e, record w { tick = w.tick + 1 })
              ]).1
      go (ok (a, rows)) e = h a rows e
      go (err e) _ = i
