-- ===== src/Common/Keys.antt =====
-- Lists in which no two rows share a key, and rows that a list has.
use mathlib.Core.Path.{◌≡◌, refl}
use mathlib.Core.Logic.{◌≢◌}
use mathlib.Core.Bool.{Bool, true}
use mathlib.Core.List.{List, [], ◌∷◌, ◌++◌, map, Memᴰ}
use native.Mathlib.Omega.{arith}
use capstone_home_care_be_mi.Common.Lists.{count, keep, count-append, count-mem, All}

module _ {ℓ} {A : Type ℓ} where
  -- No row passes the test of an earlier one.
  abbrev pub Unique : (A → A → Bool) → List A → Type 0
  Unique same [] = Unit
  Unique same (x ∷ xs) = (count (same x) xs ≡ 0) × Unique same xs

  -- Some row passes.
  abbrev pub Has : (A → Bool) → List A → Type 0
  Has p xs = count p xs ≢ 0

  pub count_ext : (p q : A → Bool) (xs : List A) → ((x : A) → p x ≡ q x) → count p xs ≡ count q xs
  count_ext p q [] h = refl
  count_ext p q (x ∷ xs) h = ground (arith, h x, count_ext p q xs h)

  pub count-keep_none : (p q : A → Bool) (xs : List A) → count q xs ≡ 0 → count q (keep p xs) ≡ 0
  count-keep_none p q [] h = refl
  count-keep_none p q (x ∷ xs) h = ground (arith, count-keep_none p q xs)

  pub Unique-append :
      (same : A → A → Bool) (xs : List A) (x : A)
      → ((a b : A) → same a b ≡ same b a)
      → Unique same xs
      → count (same x) xs ≡ 0
      → Unique same (xs ++ x ∷ [])
  Unique-append same [] x sym u h = (refl, tt)
  Unique-append same (y ∷ ys) x sym (apart, u) h = (
    ground (arith, count-append (same y) ys (x ∷ []), sym x y),
    Unique-append same ys x sym u (ground arith),
  )

  pub Unique-keep :
      (same : A → A → Bool) (p : A → Bool) (xs : List A) → Unique same xs → Unique same (keep p xs)
  Unique-keep same p [] u = tt
  Unique-keep same p (x ∷ xs) (apart, u) =
      ground (arith, count-keep_none p (same x) xs apart, Unique-keep same p xs u)

  pub count-map :
      (p q : A → Bool) (f : A → A) (xs : List A)
      → ((x : A) → p (f x) ≡ q x)
      → count p (map f xs) ≡ count q xs
  count-map p q f [] h = refl
  count-map p q f (x ∷ xs) h = ground (arith, h x, count-map p q f xs h)

  pub Unique-map :
      (same : A → A → Bool) (f : A → A) (xs : List A)
      → ((a b : A) → same (f a) (f b) ≡ same a b)
      → Unique same xs
      → Unique same (map f xs)
  Unique-map same f [] h u = tt
  Unique-map same f (x ∷ xs) h (apart, u) =
      (ground (arith, count-map (same (f x)) (same x) f xs (h x)), Unique-map same f xs h u)

  pub Has-append : (p : A → Bool) (xs ys : List A) → Has p xs → Has p (xs ++ ys)
  Has-append p xs ys h e = ground (arith, h, count-append p xs ys)

  pub Has-added : (p : A → Bool) (xs : List A) (x : A) → p x ≡ true → Has p (xs ++ x ∷ [])
  Has-added p xs x h e = ground (arith, count-append p xs (x ∷ []))

  pub Has-mem : (p : A → Bool) (xs : List A) {a : A} → Memᴰ a xs → p a ≡ true → Has p xs
  Has-mem p xs m h e = let never = count-mem p xs e m in ground (arith, h, never)

  pub Has-map :
      (p : A → Bool) (f : A → A) (xs : List A)
      → ((x : A) → p (f x) ≡ p x)
      → Has p xs
      → Has p (map f xs)
  Has-map p f xs h some_row e = ground (arith, some_row, count-map p p f xs h)

module _ {ℓ κ} {A : Type ℓ} {P Q : A → Type κ} where
  pub All-impl : (xs : List A) → ((x : A) → P x → Q x) → All P xs → All Q xs
  All-impl [] f h = tt
  All-impl (x ∷ xs) f (hx, h) = (f x hx, All-impl xs f h)

module _ {ℓ κ} {A : Type ℓ} (P : A → Type κ) where
  pub All-map : (f : A → A) (xs : List A) → ((x : A) → P x → P (f x)) → All P xs → All P (map f xs)
  All-map f [] h a = tt
  All-map f (x ∷ xs) h (hx, a) = (h x hx, All-map f xs h a)
