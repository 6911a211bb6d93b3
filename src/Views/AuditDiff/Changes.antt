-- ===== src/Views/AuditDiff/Changes.antt =====
-- What the rows of frontend/lib/audit-diff.ts say of a key.
use mathlib.Core.Path.{subst}
use mathlib.Core.List.{append-nil}
use max_one.Prelude.{
  ◌≡◌, ◌≢◌, ◌⊎◌, refl, sym, ap, ◌∙◌, String, true, false, Option, none, some, List, [], ◌∷◌, ◌++◌,
  str_eq, eq_iff, if◌then◌else◌, arith, inl, inr, Bool-cases,
}
use max_one.Views.AuditDiff.{
  Value, json, method, Snapshot, lookup, prototype, inherited, read, has_key, keys, distinct,
  Change, changed, added, removed, DiffRow, same_json, compare_values, push_row, diff_keys,
  diff_snapshots,
}

-- The changes that the rows state of a key, in order
abbrev pub changes_of : String → List DiffRow → List Change
changes_of key [] = []
changes_of key (r ∷ rows) =
    if str_eq r.key key then r.change ∷ changes_of key rows else changes_of key rows

abbrev pub option_list : Option Change → List Change
option_list none = []
option_list (some c) = c ∷ []

changes_of-push_row :
    (key k : String) (c : Option Change) (rows : List DiffRow)
    → changes_of key (push_row k c rows)
      ≡ (if str_eq k key then option_list c ++ changes_of key rows else changes_of key rows)
changes_of-push_row key k none rows = elim (Bool-cases (str_eq k key)) [
  | inl same ↦ rw same refl
  | inr other ↦ rw other refl
]
changes_of-push_row key k (some c) rows = refl

module _ (a b : Snapshot) (key : String) where
  abbrev change_of_key : Option Change
  change_of_key = compare_values (read key a) (read key b)

  -- A key that was not seen is compared once.
  diff_keys-distinct :
      (seen ks : List String)
      → changes_of key (diff_keys a b (distinct seen ks)) ≡ (
          if has_key key seen then [] else if has_key key ks then option_list change_of_key else [])
  unfolding diff_keys distinct has_key
  diff_keys-distinct seen [] = elim (Bool-cases (has_key key seen)) [
    | inl old ↦ rw old refl
    | inr new ↦ rw new refl
  ]
  diff_keys-distinct seen (k ∷ ks) =
      let e =
        changes_of-push_row key k (compare_values (read k a) (read k b))
          (diff_keys a b (distinct (k ∷ seen) ks)) in
      let kept = diff_keys-distinct seen ks in
      let put = diff_keys-distinct (k ∷ seen) ks in
      elim (Bool-cases (has_key k seen)) [
        | inl old ↦ elim (Bool-cases (str_eq k key)) [
          | inl same ↦
              let o : has_key key seen ≡ true =
                sym (ap (λ x. has_key x seen) ((eq_iff k key).0 same)) ∙ old in
              rw (old, o) (kept ∙ rw o refl)
          | inr other ↦ rw (old, other) kept
        ]
        | inr new ↦ elim (Bool-cases (str_eq k key)) [
          | inl same ↦
              let o : has_key key seen ≡ false =
                sym (ap (λ x. has_key x seen) ((eq_iff k key).0 same)) ∙ new in
              rw (new, o)
                (e
                  ∙ (ap
                        (λ x.
                          if str_eq k key
                          then option_list (compare_values (read k a) (read k b)) ++ x else x)
                        put
                      ∙ rw same (
                          append-nil (option_list (compare_values (read k a) (read k b)))
                          ∙ ap (λ x. option_list (compare_values (read x a) (read x b)))
                              ((eq_iff k key).0 same))))
          | inr other ↦ rw (new, other) (e ∙ rw other (put ∙ rw other refl))
        ]
      ]

has_key-keys : (key : String) (s : Snapshot) → has_key key (keys s) ≡ false → lookup key s ≡ none
unfolding has_key lookup
has_key-keys key [] h = refl
has_key-keys key ((k, v) ∷ s) h = elim (Bool-cases (str_eq k key)) [
  | inl same ↦ cc
  | inr other ↦ rw other (has_key-keys key s (sym (rw other refl) ∙ h))
]

has_key-◌++◌ :
    (key : String) (xs ys : List String)
    → has_key key (xs ++ ys) ≡ (if has_key key xs then true else has_key key ys)
unfolding has_key
has_key-◌++◌ key [] ys = refl
has_key-◌++◌ key (k ∷ xs) ys = elim (Bool-cases (str_eq k key)) [
  | inl same ↦ rw same refl
  | inr other ↦ rw other (has_key-◌++◌ key xs ys)
]

inherited-none : (own proto : Option Value) → proto ≡ none → inherited own proto ≡ own
inherited-none none proto h = h
inherited-none (some v) proto h = refl

-- Of a key that no object inherits, `in` finds its own.
read-lookup :
    (key : String) (s : Snapshot) → lookup key prototype ≡ none → read key s ≡ lookup key s
unfolding read
read-lookup key s own = inherited-none (lookup key s) (lookup key prototype) own

diff_snapshots-compare_values :
    (a b : Snapshot) (key : String)
    → lookup key prototype ≡ none
    → changes_of key (diff_snapshots a b)
      ≡ option_list (compare_values (lookup key a) (lookup key b))
unfolding diff_snapshots has_key
diff_snapshots-compare_values a b key own =
    let all_ = diff_keys-distinct a b key [] (keys a ++ keys b) in
    let split = has_key-◌++◌ key (keys a) (keys b) in
    let in_a = read-lookup key a own in
    let in_b = read-lookup key b own in
    elim (Bool-cases (has_key key (keys a ++ keys b))) [
      | inl there ↦ all_ ∙ rw (there, in_a, in_b) refl
      | inr gone ↦
          let none_a : has_key key (keys a) ≡ false = ground (arith, split, gone) in
          let none_b : has_key key (keys b) ≡ false = ground (arith, split, gone) in
          all_ ∙ rw (gone, has_key-keys key a none_a, has_key-keys key b none_b) refl
    ]

same_json_eq : (x y : Value) → same_json x y ≡ true → x ≡ y
same_json_eq (json x) (json y) h = ap json ((eq_iff x y).0 h)
same_json_eq (json x) method h = absurd (ground (arith, h))
same_json_eq method (json y) h = absurd (ground (arith, h))
same_json_eq method method h = refl

same_json_refl : (x : Value) → same_json x x ≡ true
same_json_refl (json x) = (eq_iff x x).1 refl
same_json_refl method = refl

-- The changes of a key that holds `before` in one object and `after` in the other
abbrev pub IsDifference : Option Value → Option Value → List Change → Type 0
IsDifference none none changes = changes ≡ []
IsDifference none (some y) changes = changes ≡ added y ∷ []
IsDifference (some x) none changes = changes ≡ removed x ∷ []
IsDifference (some x) (some y) changes =
    ((x ≡ y) × (changes ≡ [])) ⊎ ((x ≢ y) × (changes ≡ changed x y ∷ []))

compare_values-IsDifference :
    (before after : Option Value)
    → IsDifference before after (option_list (compare_values before after))
compare_values-IsDifference none none = refl
compare_values-IsDifference none (some y) = refl
compare_values-IsDifference (some x) none = refl
compare_values-IsDifference (some x) (some y) = elim (Bool-cases (same_json x y)) [
  | inl same ↦ inl (same_json_eq x y same, rw same refl)
  | inr other ↦
      inr (λ e. absurd (ground (arith, other, same_json_refl x, ap (same_json x) e)), rw other refl)
]

-- For every key that no object inherits, the rows that compare two snapshots of an audit row hold
-- exactly what became of it: no row if both lack it or both have the same value, else one row,
-- which says that it was added, removed or changed, with its values.
pub diff_snapshots-changes :
    (a b : Snapshot) (key : String)
    → lookup key prototype ≡ none
    → IsDifference (lookup key a) (lookup key b) (changes_of key (diff_snapshots a b))
diff_snapshots-changes a b key own =
    subst (IsDifference (lookup key a) (lookup key b))
      (sym (diff_snapshots-compare_values a b key own))
      (compare_values-IsDifference (lookup key a) (lookup key b))
