-- ===== src/System/Ledger.antt =====
-- The sessions seen from outside: which refresh token belongs to which device, and nothing of
-- rows, ids or order.
use capstone_home_care_be_mi.Common.{
  ℕ, ◌+◌, ◌≡◌, refl, String, Option, none, some, List, [], ◌∷◌, ◌===◌, is_some, if◌then◌else◌,
  arith, eq_iff, Bool-cases, inl, inr,
}

abbrev pub Ledger : Type 0
Ledger = String → Option ℕ

abbrev pub enter : String → ℕ → Ledger → Ledger
enter token device m x = if x === token then some device else m x

abbrev pub strike : String → Ledger → Ledger
strike token m x = if x === token then none else m x

pub data Event : Type 0 where
  opened : String → Event
  exchanged : String → String → Event
  closed : String → Event
  idle : Event

-- One step of the sessions. A token that is given out is new; one that is redeemed is held.
pub data Turn : Ledger → Event → Ledger → Type 0 where
  opens :
      {m : Ledger} (token : String) (device : ℕ)
      → m token ≡ none
      → Turn m (opened token) (enter token device m)
  exchanges :
      {m : Ledger} (old new : String) (device : ℕ)
      → m old ≡ some device
      → strike old m new ≡ none
      → Turn m (exchanged old new) (enter new device (strike old m))
  closes :
      {m : Ledger} (token : String) (device : ℕ)
      → m token ≡ some device
      → Turn m (closed token) (strike token m)
  rests : {m : Ledger} → Turn m idle m

-- The events of a run, the last one first.
pub data Run : Ledger → List Event → Ledger → Type 0 where
  start : {m : Ledger} → Run m [] m
  next : {m n k : Ledger} {es : List Event} {e : Event} → Run m es n → Turn n e k → Run m (e ∷ es) k

abbrev tally : String → String → ℕ
tally t x = if t === x then 1 else 0

-- How often a token was given out, and how often it was given back.
abbrev pub issued : String → List Event → ℕ
issued t [] = 0
issued t (opened x ∷ es) = tally t x + issued t es
issued t (exchanged old new ∷ es) = tally t new + issued t es
issued t (closed x ∷ es) = issued t es
issued t (idle ∷ es) = issued t es

abbrev pub redeemed : String → List Event → ℕ
redeemed t [] = 0
redeemed t (opened x ∷ es) = redeemed t es
redeemed t (exchanged old new ∷ es) = tally t old + redeemed t es
redeemed t (closed x ∷ es) = tally t x + redeemed t es
redeemed t (idle ∷ es) = redeemed t es

abbrev pub held : String → Ledger → ℕ
held t m = if is_some (m t) then 1 else 0

enter-held :
    (t token : String) (device : ℕ) (m : Ledger)
    → m token ≡ none
    → held t (enter token device m) ≡ tally t token + held t m
enter-held t token device m free = elim (Bool-cases (t === token)) [
  | inl e ↦
      let same : t ≡ token = ground (arith, eq_iff t token) in
      rw same (ground (arith, free, eq_iff token token))
  | inr e ↦ ground arith
]

strike-held :
    (t token : String) (device : ℕ) (m : Ledger)
    → m token ≡ some device
    → tally t token + held t (strike token m) ≡ held t m
strike-held t token device m here = elim (Bool-cases (t === token)) [
  | inl e ↦
      let same : t ≡ token = ground (arith, eq_iff t token) in
      rw same (ground (arith, here, eq_iff token token))
  | inr e ↦ ground arith
]

-- What is held at the end, and what was given back, is what was held at the start and what was
-- given out.
pub Run-balance :
    {m n : Ledger} {es : List Event}
    → Run m es n
    → (t : String) → held t n + redeemed t es ≡ held t m + issued t es
Run-balance start t = refl
Run-balance (next run (opens {m} token device free)) t =
    ground (arith, Run-balance run t, enter-held t token device m free)
Run-balance (next run (exchanges {m} old new device here free)) t = ground (
  arith,
  Run-balance run t,
  enter-held t new device (strike old m) free,
  strike-held t old device m here,
)
Run-balance (next run (closes {m} token device here)) t =
    ground (arith, Run-balance run t, strike-held t token device m here)
Run-balance (next run rests) t = Run-balance run t
