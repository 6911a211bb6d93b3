-- ===== src/Prisma/Memory.antt =====
-- A delegate over a list of slots: the row with the id `k` stands in the slot `k`. It shows that
-- what IsLawful asks for can be met, and runs in the tests.
use max_one.Prelude.{
  ℕ, zero, suc, ◌+◌, ◌≡◌, refl, ap, Bool, true, false, not, Option, none, some, List, [], ◌∷◌,
  arith, ◌==◌, if◌then◌else◌, option_map, length, inl, inr, Bool-cases, All, Has, ==_iff,
}
use max_one.Prisma.Order.{sorted, All-sorted, Has-sorted, sorted-IsOrdered}
use max_one.Prisma.{Delegate, IsLawful, filtered}

module _ {R : Type 0} where
  abbrev slot : ℕ → List (Option R) → Option R
  slot k [] = none
  slot zero (o ∷ t) = o
  slot (suc k) (o ∷ t) = slot k t

  abbrev put : ℕ → R → List (Option R) → List (Option R)
  put zero r [] = some r ∷ []
  put zero r (o ∷ t) = some r ∷ t
  put (suc k) r [] = none ∷ put k r []
  put (suc k) r (o ∷ t) = o ∷ put k r t

  abbrev update_slot : ℕ → (R → R) → List (Option R) → List (Option R)
  update_slot k f [] = []
  update_slot zero f (o ∷ t) = option_map f o ∷ t
  update_slot (suc k) f (o ∷ t) = o ∷ update_slot k f t

  abbrev map_slots : (Option R → Option R) → List (Option R) → List (Option R)
  map_slots f [] = []
  map_slots f (o ∷ t) = f o ∷ map_slots f t

  slot-put :
      (j k : ℕ) (r : R) (t : List (Option R))
      → slot j (put k r t) ≡ (if k == j then some r else slot j t)
  slot-put zero zero r [] = refl
  slot-put zero zero r (o ∷ t) = refl
  slot-put zero (suc k) r [] = ground arith
  slot-put zero (suc k) r (o ∷ t) = ground arith
  slot-put (suc j) zero r [] = ground arith
  slot-put (suc j) zero r (o ∷ t) = ground arith
  slot-put (suc j) (suc k) r [] = ground (arith, slot-put j k r [])
  slot-put (suc j) (suc k) r (o ∷ t) = ground (arith, slot-put j k r t)

  slot-length : (t : List (Option R)) → slot (length t) t ≡ none
  slot-length [] = refl
  slot-length (o ∷ t) = slot-length t

  slot-update_slot :
      (j k : ℕ) (f : R → R) (t : List (Option R))
      → slot j (update_slot k f t) ≡ (if k == j then option_map f (slot j t) else slot j t)
  slot-update_slot j k f [] = ground arith
  slot-update_slot zero zero f (o ∷ t) = refl
  slot-update_slot zero (suc k) f (o ∷ t) = ground arith
  slot-update_slot (suc j) zero f (o ∷ t) = ground arith
  slot-update_slot (suc j) (suc k) f (o ∷ t) = ground (arith, slot-update_slot j k f t)

  slot-map_slots :
      (j : ℕ) (f : Option R → Option R) (t : List (Option R))
      → f none ≡ none
      → slot j (map_slots f t) ≡ f (slot j t)
  slot-map_slots j f [] h = cc
  slot-map_slots zero f (o ∷ t) h = refl
  slot-map_slots (suc j) f (o ∷ t) h = slot-map_slots j f t h

module _ {R : Type 0} (key : R → ℕ) where
  abbrev get_row : ℕ → List (Option R) → Option R
  get_row k t = filtered (λ r. key r == k) (slot k t)

  abbrev find_from : ℕ → (R → Bool) → List (Option R) → Option R
  find_from i test [] = none
  find_from i test (none ∷ t) = find_from (suc i) test t
  find_from i test (some r ∷ t) =
      let rest = find_from (suc i) test t in
      if key r == i then (if test r then some r else rest) else rest

  abbrev collect_from : ℕ → (R → Bool) → List (Option R) → List R
  collect_from i test [] = []
  collect_from i test (none ∷ t) = collect_from (suc i) test t
  collect_from i test (some r ∷ t) =
      let rest = collect_from (suc i) test t in
      if key r == i then (if test r then r ∷ rest else rest) else rest

  abbrev pub memory : Delegate R
  memory = record {
    Table = List (Option R);
    key = key;
    find_unique = get_row;
    find_first = find_from 0;
    find_many = λ test order t. sorted order (collect_from 0 test t);
    fresh = length;
    insert = λ r t. put (key r) r t;
    update = update_slot;
    update_many = λ test f. map_slots (option_map (λ r. if test r then f r else r));
    delete_many = λ test. map_slots (filtered (λ r. not (test r)));
  }

  find_from-some :
      (i : ℕ) (test : R → Bool) (t : List (Option R)) (r : R)
      → find_from i test t ≡ some r
      → (k : ℕ) × (test r ≡ true) × (slot k t ≡ some r) × (key r ≡ k + i)
  find_from-some i test [] r h = cc
  find_from-some i test (none ∷ t) r h =
      let (k, p, s, e) = find_from-some (suc i) test t r h in (suc k, p, s, omega arith)
  find_from-some i test (some q ∷ t) r h = elim (Bool-cases (key q == i)) [
    | inl here ↦ elim (Bool-cases (test q)) [
      | inl passes ↦ (0, ground arith, ground arith, ground arith)
      | inr fails ↦ later (find_from-some (suc i) test t r (ground arith))
    ]
    | inr elsewhere ↦ later (find_from-some (suc i) test t r (ground arith))
  ]
    where
      later :
          (k : ℕ) × (test r ≡ true) × (slot k t ≡ some r) × (key r ≡ k + suc i)
          → (k : ℕ) × (test r ≡ true) × (slot k (some q ∷ t) ≡ some r) × (key r ≡ k + i)
      later (k, p, s, e) = (suc k, p, s, omega arith)

  find_from-none :
      (i k : ℕ) (test : R → Bool) (t : List (Option R)) (r : R)
      → find_from i test t ≡ none
      → slot k t ≡ some r
      → key r ≡ k + i
      → test r ≡ false
  find_from-none i k test [] r h s e = cc
  find_from-none i zero test (none ∷ t) r h s e = cc
  find_from-none i (suc k) test (none ∷ t) r h s e =
      find_from-none (suc i) k test t r h s (omega arith)
  find_from-none i zero test (some q ∷ t) r h s e = ground arith
  find_from-none i (suc k) test (some q ∷ t) r h s e =
      ground (arith, find_from-none (suc i) k test t r)

  filtered-map :
      (j : ℕ) (f : R → R) (o : Option R)
      → ((r : R) → key (f r) ≡ key r)
      → filtered (λ r. key r == j) (option_map f o) ≡ option_map f (filtered (λ r. key r == j) o)
  filtered-map j f none h = refl
  filtered-map j f (some r) h = ground (arith, h r)

  filtered_comm :
      (test other : R → Bool) (o : Option R)
      → filtered test (filtered other o) ≡ filtered other (filtered test o)
  filtered_comm test other none = refl
  filtered_comm test other (some r) = ground arith

  -- The collected rows pass the test and stand in their slots of the whole table.
  collect_rows :
      (i : ℕ) (test : R → Bool) (t whole : List (Option R))
      → ((k : ℕ) (r : R) → slot k t ≡ some r → key r ≡ k + i → get_row (key r) whole ≡ some r)
      → All (λ r. (test r ≡ true) × (get_row (key r) whole ≡ some r)) (collect_from i test t)
  collect_rows i test [] whole h = tt
  collect_rows i test (none ∷ t) whole h =
      collect_rows (suc i) test t whole (λ k r s e. h (suc k) r s (omega arith))
  collect_rows i test (some q ∷ t) whole h =
      let rest = collect_rows (suc i) test t whole (λ k r s e. h (suc k) r s (omega arith)) in
      elim (Bool-cases (key q == i)) [
        | inl here ↦ elim (Bool-cases (test q)) [
          | inl passes ↦ rw (here, passes) ((passes, h 0 q refl (ground arith)), rest)
          | inr fails ↦ rw (here, fails) rest
        ]
        | inr elsewhere ↦ rw elsewhere rest
      ]

  Has-collect_from :
      (i k : ℕ) (test : R → Bool) (t : List (Option R)) (r : R)
      → slot k t ≡ some r
      → test r ≡ true
      → key r ≡ k + i
      → Has r (collect_from i test t)
  Has-collect_from i k test [] r s p e = cc
  Has-collect_from i zero test (none ∷ t) r s p e = cc
  Has-collect_from i (suc k) test (none ∷ t) r s p e =
      Has-collect_from (suc i) k test t r s p (omega arith)
  Has-collect_from i zero test (some q ∷ t) r s p e =
      let same : q ≡ r = cc in rw (same, p, (==_iff (key r) i).1 (omega arith)) (inl refl)
  Has-collect_from i (suc k) test (some q ∷ t) r s p e =
      let rest = Has-collect_from (suc i) k test t r s p (omega arith) in
      elim (Bool-cases (key q == i)) [
        | inl here ↦ elim (Bool-cases (test q)) [
          | inl passes ↦ rw (here, passes) (inr rest)
          | inr fails ↦ rw (here, fails) rest
        ]
        | inr elsewhere ↦ rw elsewhere rest
      ]

  pub memory-IsLawful : IsLawful memory
  memory-IsLawful = record {
    key-find_unique = λ k t r h. ground arith;
    find_unique-fresh = λ t. rw slot-length;
    find_unique-insert = λ j r t h. ground (arith, slot-put j (key r) r t);
    find_unique-update =
        λ j k f t h. ground (arith, slot-update_slot j k f t, filtered-map j f (slot j t) h);
    find_unique-update_many = λ j test f t h.
        rw (slot-map_slots j (option_map (λ r. if test r then f r else r)) t refl)
          (filtered-map j (λ r. if test r then f r else r) (slot j t) (λ r. ground (arith, h r)));
    find_unique-delete_many = λ j test t.
        rw (slot-map_slots j (filtered (λ r. not (test r))) t refl) (filtered_comm _ _ (slot j t));
    find_first-some = λ test t r h.
        let (k, p, s, e) = find_from-some 0 test t r h in
        (p, ground (arith, ap (λ n. slot n t) (let q : key r ≡ k = omega arith in q)));
    find_first-none = λ test t k r h f. find_from-none 0 k test t r h (ground arith) (ground arith);
    find_many-All = λ test order t. All-sorted _ order _ (
        collect_rows 0 test t t
          (λ k r h e. ground (arith, ap (λ n. slot n t) (let q : key r ≡ k = omega arith in q))));
    find_many-Has = λ test order t k r f e.
        Has-sorted r order _ (Has-collect_from 0 k test t r (ground arith) e (ground arith));
    find_many-IsOrdered = λ test order t. sorted-IsOrdered order _;
  }
