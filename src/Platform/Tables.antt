-- ===== src/Platform/Tables.antt =====
-- The queries on one table that the program asks of Prisma, as parameters, and what it relies on.
-- A query is given the number of outside calls made before it, so that nothing is assumed to answer
-- the same way twice, and the rows of its table; one that writes answers with the rows that it
-- leaves, and one that fails leaves the table as it was.
use capstone_home_care_be_mi.Common.{
  ℕ, ◌≡◌, ◌≢◌, ◌↔◌, ◌⊎◌, inl, inr, Bool, true, not, Option, some, none, List, [], ◌∷◌, ◌++◌, map,
  Memᴰ, count, keep, ◌==◌, if◌then◌else◌,
}
use capstone_home_care_be_mi.Errors.{Result, ok, err, prisma}

pub record Queries (Row New : Type 0) : Type 0 where
  -- `findFirst`, and `findUnique` where the test names a unique key
  pub find : ℕ → (Row → Bool) → List Row → Result (Option Row)
  pub find_many : ℕ → (Row → Bool) → List Row → Result (List Row)
  -- `create`; the test says whether the rows that the data refer to are stored, which the database
  -- sees in the other tables
  pub create : ℕ → Bool → New → List Row → Result (Row × List Row)
  -- `update` and `delete` at a unique key
  pub update : ℕ → (Row → Bool) → (Row → Row) → List Row → Result (Row × List Row)
  pub delete : ℕ → (Row → Bool) → List Row → Result (Row × List Row)
  pub delete_many : ℕ → (Row → Bool) → List Row → Result (ℕ × List Row)

-- What a query that answers has done. `Made` says which row a `create` makes of its data, `clash`
-- which rows share a unique value with it, `key` is the generated id.
pub record IsSound {Row New : Type 0} (Made : New → Row → Type 0) (clash : New → Row → Bool)
    (key : Row → ℕ) (q : Queries Row New) : Type 0 where
  pub find-some :
      (t : ℕ) (p : Row → Bool) (rows : List Row) (r : Row)
      → q.find t p rows ≡ ok (some r)
      → (p r ≡ true) × Memᴰ r rows
  pub find-none :
      (t : ℕ) (p : Row → Bool) (rows : List Row) → q.find t p rows ≡ ok none → count p rows ≡ 0
  pub find_many-ok :
      (t : ℕ) (p : Row → Bool) (rows found : List Row)
      → q.find_many t p rows ≡ ok found
      → (r : Row) → Memᴰ r found ↔ (Memᴰ r rows × (p r ≡ true))
  pub create-ok :
      (t : ℕ) (referred : Bool) (n : New) (rows : List Row) (r : Row) (rows' : List Row)
      → q.create t referred n rows ≡ ok (r, rows')
      → Made n r
        × (rows' ≡ rows ++ r ∷ [])
        × (count (clash n) rows ≡ 0)
        × (count (λ x. key x == key r) rows ≡ 0)
  pub update-ok :
      (t : ℕ) (p : Row → Bool) (f : Row → Row) (rows : List Row) (r : Row) (rows' : List Row)
      → q.update t p f rows ≡ ok (r, rows')
      → (rows' ≡ map (λ x. if p x then f x else x) rows)
        × ((x : Row) × (p x ≡ true) × Memᴰ x rows × (r ≡ f x))
  pub delete-ok :
      (t : ℕ) (p : Row → Bool) (rows : List Row) (r : Row) (rows' : List Row)
      → q.delete t p rows ≡ ok (r, rows')
      → (p r ≡ true) × Memᴰ r rows × (rows' ≡ keep (λ x. not (p x)) rows)
  pub delete_many-ok :
      (t : ℕ) (p : Row → Bool) (rows : List Row) (n : ℕ) (rows' : List Row)
      → q.delete_many t p rows ≡ ok (n, rows')
      → rows' ≡ keep (λ x. not (p x)) rows

-- The connection is up: a query fails only for a reason that Prisma documents. `Fits` says that the
-- data are not too long for their columns.
pub record IsLive {Row New : Type 0} (Fits : New → Type 0) (clash : New → Row → Bool)
    (q : Queries Row New) : Type 0 where
  pub find-live :
      (t : ℕ) (p : Row → Bool) (rows : List Row) → (o : Option Row) × (q.find t p rows ≡ ok o)
  pub create-live :
      (t : ℕ) (n : New) (rows : List Row)
      → Fits n
      → count (clash n) rows ≡ 0
      → (a : Row × List Row) × (q.create t true n rows ≡ ok a)
  pub create-clash :
      (t : ℕ) (n : New) (rows : List Row)
      → Fits n
      → count (clash n) rows ≢ 0
      → q.create t true n rows ≡ err (prisma "P2002")
  pub update-live :
      (t : ℕ) (p : Row → Bool) (f : Row → Row) (rows : List Row)
      → count p rows ≢ 0
      → (a : Row × List Row) × (q.update t p f rows ≡ ok a)
  pub delete-live :
      (t : ℕ) (p : Row → Bool) (rows : List Row)
      → count p rows ≢ 0
      → (a : Row × List Row) × (q.delete t p rows ≡ ok a)
  pub delete-missing :
      (t : ℕ) (p : Row → Bool) (rows : List Row)
      → count p rows ≡ 0
      → q.delete t p rows ≡ err (prisma "P2025")
  pub delete_many-live :
      (t : ℕ) (p : Row → Bool) (rows : List Row)
      → (a : ℕ × List Row) × (q.delete_many t p rows ≡ ok a)

-- While the connection is up, a query for one row finds one that passes or shows that none does.
module _ {Row New : Type 0} {Made : New → Row → Type 0} {Fits : New → Type 0}
    {clash : New → Row → Bool} {key : Row → ℕ} {q : Queries Row New} (s : IsSound Made clash key q)
    (live : IsLive Fits clash q) where
  pub find_cases :
      (t : ℕ) (p : Row → Bool) (rows : List Row)
      → ((q.find t p rows ≡ ok none) × (count p rows ≡ 0))
        ⊎ ((r : Row) × (q.find t p rows ≡ ok (some r)) × (p r ≡ true) × Memᴰ r rows)
  find_cases t p rows = let (o, e) = live.find-live t p rows in go o e
    where
      go :
          (o : Option Row)
          → q.find t p rows ≡ ok o
          → ((q.find t p rows ≡ ok none) × (count p rows ≡ 0))
            ⊎ ((r : Row) × (q.find t p rows ≡ ok (some r)) × (p r ≡ true) × Memᴰ r rows)
      go none e = inl (e, s.find-none t p rows e)
      go (some r) e = let (hit, mem) = s.find-some t p rows r e in inr (r, e, hit, mem)
