-- ===== src/Common/Lists.antt =====
-- Predicates and tests over lists, by recursion, so that they compute in proofs and in tests.
use Prim.Native.Nat.{ℕ, suc, ◌+◌}
use mathlib.Core.Path.{◌≡◌, refl}
use mathlib.Core.Bool.{Bool, true, false, not, ◌&&◌, ◌||◌}
use mathlib.Core.List.{List, [], ◌∷◌, ◌++◌, Memᴰ}
use mathlib.Core.List.Memᴰ as MemD
use mathlib.Core.Logic.{◌⊎◌, inl, inr}
use native.Mathlib.Omega.{arith}
use capstone_home_care_be_mi.Common.Tests.{if◌then◌else◌, ◌==◌, Bool-cases}

module _ {ℓ} {A : Type ℓ} where
  abbrev pub length : List A → ℕ
  length [] = 0
  length (x ∷ xs) = suc (length xs)

  abbrev pub any : (A → Bool) → List A → Bool
  any p [] = false
  any p (x ∷ xs) = p x || any p xs

  abbrev pub all : (A → Bool) → List A → Bool
  all p [] = true
  all p (x ∷ xs) = p x && all p xs

  -- The rows that pass a test, in order.
  abbrev pub keep : (A → Bool) → List A → List A
  keep p [] = []
  keep p (x ∷ xs) = if p x then x ∷ keep p xs else keep p xs

  -- How many rows pass a test.
  abbrev pub count : (A → Bool) → List A → ℕ
  count p [] = 0
  count p (x ∷ xs) = if p x then suc (count p xs) else count p xs

  pub count-append : (p : A → Bool) (xs ys : List A) → count p (xs ++ ys) ≡ count p xs + count p ys
  count-append p [] ys = omega arith
  count-append p (x ∷ xs) ys = ground (arith, count-append p xs ys)

  pub keep-append : (p : A → Bool) (xs ys : List A) → keep p (xs ++ ys) ≡ keep p xs ++ keep p ys
  keep-append p [] ys = refl
  keep-append p (x ∷ xs) ys = ground (arith, keep-append p xs ys)

  -- What a deletion by `p` leaves of the rows counted by `q`, where `p` covers `q`.
  pub count-keep_covered :
      (p q : A → Bool) (xs : List A)
      → ((x : A) → q x ≡ true → p x ≡ true)
      → count q (keep (λ x. not (p x)) xs) ≡ 0
  count-keep_covered p q [] h = refl
  count-keep_covered p q (x ∷ xs) h = ground (arith, h x, count-keep_covered p q xs h)

  -- A deletion by `p` leaves the rows counted by `q` alone, where the two do not meet.
  pub count-keep_apart :
      (p q : A → Bool) (xs : List A)
      → ((x : A) → q x ≡ true → p x ≡ false)
      → count q (keep (λ x. not (p x)) xs) ≡ count q xs
  count-keep_apart p q [] h = refl
  count-keep_apart p q (x ∷ xs) h = ground (arith, h x, count-keep_apart p q xs h)

  -- A row that no count has seen does not pass.
  pub count-mem : (p : A → Bool) (xs : List A) {a : A} → count p xs ≡ 0 → Memᴰ a xs → p a ≡ false
  count-mem p [] e m = absurd (MemD.not-nil m)
  count-mem p (x ∷ xs) e (Memᴰ.head q) = rw q (ground arith)
  count-mem p (x ∷ xs) e (Memᴰ.tail m) = count-mem p xs (ground arith) m

module _ {ℓ} {A : Type ℓ} where
  pub mem_append : (xs ys : List A) {a : A} → Memᴰ a (xs ++ ys) → Memᴰ a xs ⊎ Memᴰ a ys
  mem_append [] ys m = inr m
  mem_append (x ∷ xs) ys (Memᴰ.head q) = inl (Memᴰ.head q)
  mem_append (x ∷ xs) ys (Memᴰ.tail m) = elim (mem_append xs ys m) [
    | inl l ↦ inl (Memᴰ.tail l)
    | inr r ↦ inr r
  ]

-- A number that a list has passed to `any`.
pub any-mem : (n : ℕ) (xs : List ℕ) → any (λ i. i == n) xs ≡ true → Memᴰ n xs
any-mem n [] h = absurd (ground arith)
any-mem n (x ∷ xs) h = elim (Bool-cases (x == n)) [
  | inl e ↦ let same : n ≡ x = ground arith in Memᴰ.head same
  | inr e ↦ Memᴰ.tail (any-mem n xs (ground arith))
]

module _ {ℓ κ} {A : Type ℓ} (P : A → Type κ) where
  abbrev pub All : List A → Type κ
  All [] = Unit
  All (x ∷ xs) = P x × All xs

  pub All-append : (xs ys : List A) → All xs → All ys → All (xs ++ ys)
  All-append [] ys hx hy = hy
  All-append (x ∷ xs) ys hx hy = (hx.0, All-append xs ys hx.1 hy)

  pub All-keep : (p : A → Bool) (xs : List A) → All xs → All (keep p xs)
  All-keep p [] h = tt
  All-keep p (x ∷ xs) h = ground (arith, All-keep p xs h.1)

  pub All-mem : {a : A} (xs : List A) → All xs → Memᴰ a xs → P a
  All-mem [] h m = absurd (MemD.not-nil m)
  All-mem (x ∷ xs) h (Memᴰ.head e) = rw e h.0
  All-mem (x ∷ xs) h (Memᴰ.tail m) = All-mem xs h.1 m
