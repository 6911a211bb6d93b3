-- ===== src/Prisma/Order.antt =====
-- Sorting the rows of a table for `orderBy`.
use max_one.Prelude.{
  ℕ, ◌≤◌, refl, Bool, List, [], ◌∷◌, arith, leb, inl, inr, Bool-cases, if◌then◌else◌, All, Has,
  IsAscending, IsDescending,
}
use max_one.Prisma.{OrderBy, unordered, asc, desc, IsOrdered}

module _ {R : Type 0} where
  -- `before a b`: `a` need not go behind `b`
  abbrev pub insert_by : (R → R → Bool) → R → List R → List R
  insert_by before r [] = r ∷ []
  insert_by before r (x ∷ xs) =
      let rest = insert_by before r xs in if before r x then r ∷ x ∷ xs else x ∷ rest

  abbrev pub sort_by : (R → R → Bool) → List R → List R
  sort_by before [] = []
  sort_by before (x ∷ xs) = insert_by before x (sort_by before xs)

  abbrev pub sorted : OrderBy R → List R → List R
  sorted unordered rows = rows
  sorted (asc rank) rows = sort_by (λ a b. leb (rank a) (rank b)) rows
  sorted (desc rank) rows = sort_by (λ a b. leb (rank b) (rank a)) rows

  All-insert_by :
      (P : R → Type 0) (before : R → R → Bool) (r : R) (xs : List R)
      → P r
      → All P xs
      → All P (insert_by before r xs)
  All-insert_by P before r [] h hs = (h, tt)
  All-insert_by P before r (x ∷ xs) h hs = elim (Bool-cases (before r x)) [
    | inl e ↦ rw e (h, hs)
    | inr e ↦ rw e (hs.0, All-insert_by P before r xs h hs.1)
  ]

  All-sort_by :
      (P : R → Type 0) (before : R → R → Bool) (xs : List R) → All P xs → All P (sort_by before xs)
  All-sort_by P before [] hs = tt
  All-sort_by P before (x ∷ xs) hs =
      All-insert_by P before x (sort_by before xs) hs.0 (All-sort_by P before xs hs.1)

  pub All-sorted :
      (P : R → Type 0) (order : OrderBy R) (xs : List R) → All P xs → All P (sorted order xs)
  All-sorted P unordered xs h = h
  All-sorted P (asc rank) xs h = All-sort_by P _ xs h
  All-sorted P (desc rank) xs h = All-sort_by P _ xs h

  Has-insert_by_self : (before : R → R → Bool) (r : R) (xs : List R) → Has r (insert_by before r xs)
  Has-insert_by_self before r [] = inl refl
  Has-insert_by_self before r (x ∷ xs) = elim (Bool-cases (before r x)) [
    | inl e ↦ rw e (inl refl)
    | inr e ↦ rw e (inr (Has-insert_by_self before r xs))
  ]

  Has-insert_by :
      (a : R) (before : R → R → Bool) (r : R) (xs : List R)
      → Has a xs
      → Has a (insert_by before r xs)
  Has-insert_by a before r [] h = absurd h
  Has-insert_by a before r (x ∷ xs) h = elim (Bool-cases (before r x)) [
    | inl e ↦ rw e (inr h)
    | inr e ↦
        rw e (elim h [ inl here ↦ inl here | inr there ↦ inr (Has-insert_by a before r xs there) ])
  ]

  Has-sort_by : (a : R) (before : R → R → Bool) (xs : List R) → Has a xs → Has a (sort_by before xs)
  Has-sort_by a before [] h = h
  Has-sort_by a before (x ∷ xs) (inl e) = rw (← e) (Has-insert_by_self before x (sort_by before xs))
  Has-sort_by a before (x ∷ xs) (inr h) =
      Has-insert_by a before x (sort_by before xs) (Has-sort_by a before xs h)

  pub Has-sorted : (a : R) (order : OrderBy R) (xs : List R) → Has a xs → Has a (sorted order xs)
  Has-sorted a unordered xs h = h
  Has-sorted a (asc rank) xs h = Has-sort_by a _ xs h
  Has-sorted a (desc rank) xs h = Has-sort_by a _ xs h

  All-le :
      (rank : R → ℕ) (a b : R) (xs : List R)
      → rank a ≤ rank b
      → All (λ y. rank b ≤ rank y) xs
      → All (λ y. rank a ≤ rank y) xs
  All-le rank a b [] h hs = tt
  All-le rank a b (x ∷ xs) h hs = (omega arith, All-le rank a b xs h hs.1)

  All-ge :
      (rank : R → ℕ) (a b : R) (xs : List R)
      → rank b ≤ rank a
      → All (λ y. rank y ≤ rank b) xs
      → All (λ y. rank y ≤ rank a) xs
  All-ge rank a b [] h hs = tt
  All-ge rank a b (x ∷ xs) h hs = (omega arith, All-ge rank a b xs h hs.1)

  module _ (rank : R → ℕ) where
    insert-IsAscending :
        (r : R) (xs : List R)
        → IsAscending rank xs
        → IsAscending rank (insert_by (λ a b. leb (rank a) (rank b)) r xs)
    insert-IsAscending r [] h = (tt, tt)
    insert-IsAscending r (x ∷ xs) h = elim (Bool-cases (leb (rank r) (rank x))) [
      | inl e ↦ let le : rank r ≤ rank x = ground arith in rw e ((le, All-le rank r x xs le h.0), h)
      | inr e ↦ rw e (
        All-insert_by (λ y. rank x ≤ rank y) (λ a b. leb (rank a) (rank b)) r xs (ground arith) h.0,
        insert-IsAscending r xs h.1,
      )
    ]

    insert-IsDescending :
        (r : R) (xs : List R)
        → IsDescending rank xs
        → IsDescending rank (insert_by (λ a b. leb (rank b) (rank a)) r xs)
    insert-IsDescending r [] h = (tt, tt)
    insert-IsDescending r (x ∷ xs) h = elim (Bool-cases (leb (rank x) (rank r))) [
      | inl e ↦ let le : rank x ≤ rank r = ground arith in rw e ((le, All-ge rank r x xs le h.0), h)
      | inr e ↦ rw e (
        All-insert_by (λ y. rank y ≤ rank x) (λ a b. leb (rank b) (rank a)) r xs (ground arith) h.0,
        insert-IsDescending r xs h.1,
      )
    ]

    sort-IsAscending : (xs : List R) → IsAscending rank (sort_by (λ a b. leb (rank a) (rank b)) xs)
    sort-IsAscending [] = tt
    sort-IsAscending (x ∷ xs) = insert-IsAscending x _ (sort-IsAscending xs)

    sort-IsDescending :
        (xs : List R) → IsDescending rank (sort_by (λ a b. leb (rank b) (rank a)) xs)
    sort-IsDescending [] = tt
    sort-IsDescending (x ∷ xs) = insert-IsDescending x _ (sort-IsDescending xs)

  pub sorted-IsOrdered : (order : OrderBy R) (xs : List R) → IsOrdered order (sorted order xs)
  sorted-IsOrdered unordered xs = tt
  sorted-IsOrdered (asc rank) xs = sort-IsAscending rank xs
  sorted-IsOrdered (desc rank) xs = sort-IsDescending rank xs
