-- ===== src/Tests/Memory.antt =====
-- Queries on a list in memory, for any table, and that they are sound and never fail without reason.
use capstone_home_care_be_mi.Common.{
  ℕ, ◌+◌, ◌≡◌, ◌≢◌, ◌≤◌, inl, inr, refl, Bool, true, not, Option, none, some, List, [], ◌∷◌, ◌++◌,
  map, Memᴰ, count, keep, count-mem, ◌==◌, leb, if◌then◌else◌, arith, Bool-cases, Option-cases,
}
use mathlib.Core.List.Memᴰ.{not-nil}
use capstone_home_care_be_mi.Errors.{ok, err, prisma}
use capstone_home_care_be_mi.Platform.{Queries, IsSound, IsLive}

module _ {Row : Type 0} where
  abbrev pub first : (Row → Bool) → List Row → Option Row
  first p [] = none
  first p (x ∷ xs) = if p x then some x else first p xs

  first-some :
      (p : Row → Bool) (xs : List Row) (r : Row) → first p xs ≡ some r → (p r ≡ true) × Memᴰ r xs
  first-some p [] r h = absurd (ground arith)
  first-some p (x ∷ xs) r h = elim (Bool-cases (p x)) [
    | inl e ↦ let same : x ≡ r = ground arith in rw (← same) (e, Memᴰ.head refl)
    | inr e ↦ let (hit, mem) = first-some p xs r (ground arith) in (hit, Memᴰ.tail mem)
  ]

  first-none : (p : Row → Bool) (xs : List Row) → first p xs ≡ none → count p xs ≡ 0
  first-none p [] h = refl
  first-none p (x ∷ xs) h = ground (arith, first-none p xs)

  first-found :
      (p : Row → Bool) (xs : List Row) → count p xs ≢ 0 → (r : Row) × (first p xs ≡ some r)
  first-found p xs h = elim (Option-cases (first p xs)) [
    | inl e ↦ absurd (h (first-none p xs e))
    | inr found ↦ found
  ]

  pub mem_of_keep :
      (p : Row → Bool) (xs : List Row) {r : Row} → Memᴰ r (keep p xs) → Memᴰ r xs × (p r ≡ true)
  mem_of_keep p [] m = absurd (not-nil m)
  mem_of_keep p (x ∷ xs) m = elim (Bool-cases (p x)) [
    | inl e ↦ at_head e (λ n. mem_of_keep p xs n) (rw e at m)
    | inr e ↦ let (mem, hit) = mem_of_keep p xs (rw e at m) in (Memᴰ.tail mem, hit)
  ]
    where
      at_head :
          {r : Row}
          → p x ≡ true
          → (Memᴰ r (keep p xs) → Memᴰ r xs × (p r ≡ true))
          → Memᴰ r (x ∷ keep p xs)
          → Memᴰ r (x ∷ xs) × (p r ≡ true)
      at_head e more (Memᴰ.head q) = (Memᴰ.head q, rw q e)
      at_head e more (Memᴰ.tail n) = let (mem, hit) = more n in (Memᴰ.tail mem, hit)

  keep_of_mem :
      (p : Row → Bool) (xs : List Row) {r : Row} → Memᴰ r xs → p r ≡ true → Memᴰ r (keep p xs)
  keep_of_mem p [] m hit = absurd (not-nil m)
  keep_of_mem p (x ∷ xs) (Memᴰ.head q) hit =
      let here : p x ≡ true = rw (← q) hit in rw here (Memᴰ.head q)
  keep_of_mem p (x ∷ xs) (Memᴰ.tail m) hit = elim (Bool-cases (p x)) [
    | inl e ↦ rw e (Memᴰ.tail (keep_of_mem p xs m hit))
    | inr e ↦ rw e (keep_of_mem p xs m hit)
  ]

  -- A key above those of all rows.
  abbrev pub next : (Row → ℕ) → List Row → ℕ
  next key [] = 1
  next key (x ∷ xs) = let above = next key xs in if leb above (key x) then key x + 1 else above

  next-above :
      (key : Row → ℕ) (xs : List Row) (k : ℕ) → next key xs ≤ k → count (λ x. key x == k) xs ≡ 0
  next-above key [] k h = refl
  next-above key (x ∷ xs) k h = ground (arith, next-above key xs k)

module _ {Row New : Type 0} (make : ℕ → New → Row) (clash : New → Row → Bool) (key : Row → ℕ) where
  abbrev pub memory : Queries Row New
  memory = record {
    find = λ t p rows. ok (first p rows);
    find_many = λ t p rows. ok (keep p rows);
    create = λ t referred n rows.
        if count (clash n) rows == 0
        then ok (make (next key rows) n, rows ++ make (next key rows) n ∷ [])
        else err (prisma "P2002");
    update = λ t p f rows. elim (first p rows) [
      | none ↦ err (prisma "P2025")
      | some r ↦ ok (f r, map (λ x. if p x then f x else x) rows)
    ];
    delete = λ t p rows. elim (first p rows) [
      | none ↦ err (prisma "P2025")
      | some r ↦ ok (r, keep (λ x. not (p x)) rows)
    ];
    delete_many = λ t p rows. ok (count p rows, keep (λ x. not (p x)) rows);
  }

  pub memory-IsSound :
      (Made : New → Row → Type 0)
      → ((i : ℕ) (n : New) → Made n (make i n))
      → ((i : ℕ) (n : New) → key (make i n) ≡ i)
      → IsSound Made clash key memory
  memory-IsSound Made made keyed = record {
    find-some = λ t p rows r h. first-some p rows r (ground arith);
    find-none = λ t p rows h. first-none p rows (ground arith);
    find_many-ok = λ t p rows found h r.
        (let same : keep p rows ≡ found = ground arith in
          rw (← same) ((λ m. mem_of_keep p rows m), (λ m. keep_of_mem p rows m.0 m.1)));
    create-ok = λ t referred n rows r rows' h. elim (Bool-cases (count (clash n) rows == 0)) [
      | inr e ↦ absurd (ground arith)
      | inl e ↦
          let i = next key rows in
          let same : make i n ≡ r = ground arith in
          let fresh : count (λ x. key x == key (make i n)) rows ≡ 0 =
            rw (keyed i n) (next-above key rows i (omega arith)) in
          rw (← same) (made i n, ground arith, ground arith, fresh)
    ];
    update-ok = λ t p f rows r rows' h. elim (Option-cases (first p rows)) [
      | inl e ↦ absurd (ground arith)
      | inr (x, e) ↦
          let (hit, mem) = first-some p rows x e in (ground arith, (x, hit, mem, ground arith))
    ];
    delete-ok = λ t p rows r rows' h. elim (Option-cases (first p rows)) [
      | inl e ↦ absurd (ground arith)
      | inr (x, e) ↦
          let (hit, mem) = first-some p rows x e in
          let same : x ≡ r = ground arith in rw (← same) (hit, mem, ground arith)
    ];
    delete_many-ok = λ t p rows n rows' h. ground arith;
  }

  pub memory-IsLive : {Fits : New → Type 0} → IsLive Fits clash memory
  memory-IsLive = record {
    find-live = λ t p rows. (first p rows, refl);
    create-live = λ t n rows fits h.
        ((make (next key rows) n, rows ++ make (next key rows) n ∷ []), ground arith);
    create-clash = λ t n rows fits h. ground arith;
    update-live = λ t p f rows h.
        let (r, e) = first-found p rows h in
        ((f r, map (λ x. if p x then f x else x) rows), ground arith);
    delete-live = λ t p rows h.
        let (r, e) = first-found p rows h in ((r, keep (λ x. not (p x)) rows), ground arith);
    delete-missing = λ t p rows h. elim (Option-cases (first p rows)) [
      | inl e ↦ ground arith
      | inr (r, e) ↦
          let (hit, mem) = first-some p rows r e in
          let never = count-mem p rows h mem in absurd (ground arith)
    ];
    delete_many-live = λ t p rows. (_, refl);
  }
