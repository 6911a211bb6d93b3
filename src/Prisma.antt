-- ===== src/Prisma.antt =====
-- The delegates of the Prisma client (`prisma.wallet`, `prisma.transaction`, ...) are not code of
-- the repository: a delegate is a parameter, over an unknown table, and `IsLawful` is what the
-- services rely on. `where` clauses are tests on a row, `data` clauses are functions on it.
mod Order
pub mod Memory
use max_one.Prelude.{
  ℕ, ◌≡◌, Bool, true, false, not, Option, none, some, List, ◌==◌, if◌then◌else◌, option_map, All,
  Has, IsAscending, IsDescending,
}

-- `orderBy` on a column that reads as a number
pub data OrderBy (R : Type 0) : Type 0 where
  unordered : OrderBy R
  asc : (R → ℕ) → OrderBy R
  desc : (R → ℕ) → OrderBy R

abbrev pub IsOrdered : {R : Type 0} → OrderBy R → List R → Type 0
IsOrdered unordered rows = Unit
IsOrdered (asc rank) rows = IsAscending rank rows
IsOrdered (desc rank) rows = IsDescending rank rows

pub record Delegate (R : Type 0) : Type 1 where
  pub Table : Type 0
  -- the row's `@id`
  pub key : R → ℕ
  -- `findUnique({ where: { id } })`
  pub find_unique : ℕ → Table → Option R
  -- `findFirst` and `findUnique` on other columns
  pub find_first : (R → Bool) → Table → Option R
  pub find_many : (R → Bool) → OrderBy R → Table → List R
  -- the next value of `@default(uuid())`
  pub fresh : Table → ℕ
  pub insert : R → Table → Table
  -- `update({ where: { id }, data })`
  pub update : ℕ → (R → R) → Table → Table
  pub update_many : (R → Bool) → (R → R) → Table → Table
  pub delete_many : (R → Bool) → Table → Table

-- The rows of `o` that a test lets through.
abbrev pub filtered : {R : Type 0} → (R → Bool) → Option R → Option R
filtered test none = none
filtered test (some r) = if test r then some r else none

pub record IsLawful {R : Type 0} (d : Delegate R) : Type 0 where
  pub key-find_unique : (k : ℕ) (t : d.Table) (r : R) → d.find_unique k t ≡ some r → d.key r ≡ k
  pub find_unique-fresh : (t : d.Table) → d.find_unique (d.fresh t) t ≡ none
  pub find_unique-insert :
      (j : ℕ) (r : R) (t : d.Table)
      → d.find_unique (d.key r) t ≡ none
      → d.find_unique j (d.insert r t) ≡ (if d.key r == j then some r else d.find_unique j t)
  pub find_unique-update :
      (j k : ℕ) (f : R → R) (t : d.Table)
      → ((r : R) → d.key (f r) ≡ d.key r)
      → d.find_unique j (d.update k f t)
        ≡ (if k == j then option_map f (d.find_unique j t) else d.find_unique j t)
  pub find_unique-update_many :
      (j : ℕ) (test : R → Bool) (f : R → R) (t : d.Table)
      → ((r : R) → d.key (f r) ≡ d.key r)
      → d.find_unique j (d.update_many test f t)
        ≡ option_map (λ r. if test r then f r else r) (d.find_unique j t)
  pub find_unique-delete_many :
      (j : ℕ) (test : R → Bool) (t : d.Table)
      → d.find_unique j (d.delete_many test t) ≡ filtered (λ r. not (test r)) (d.find_unique j t)
  -- `find_first` finds a row of the table, by its key, that passes the test...
  pub find_first-some :
      (test : R → Bool) (t : d.Table) (r : R)
      → d.find_first test t ≡ some r
      → (test r ≡ true) × (d.find_unique (d.key r) t ≡ some r)
  -- ... and none only if no row does.
  pub find_first-none :
      (test : R → Bool) (t : d.Table) (k : ℕ) (r : R)
      → d.find_first test t ≡ none
      → d.find_unique k t ≡ some r
      → test r ≡ false
  -- `find_many` lists the rows of the table that pass the test, those alone, and in order.
  pub find_many-All :
      (test : R → Bool) (order : OrderBy R) (t : d.Table)
      → All (λ r. (test r ≡ true) × (d.find_unique (d.key r) t ≡ some r)) (d.find_many test order t)
  pub find_many-Has :
      (test : R → Bool) (order : OrderBy R) (t : d.Table) (k : ℕ) (r : R)
      → d.find_unique k t ≡ some r
      → test r ≡ true
      → Has r (d.find_many test order t)
  pub find_many-IsOrdered :
      (test : R → Bool) (order : OrderBy R) (t : d.Table)
      → IsOrdered order (d.find_many test order t)
