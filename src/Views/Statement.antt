-- ===== src/Views/Statement.antt =====
-- customer/lib/format/group-by-day.ts: the rows of a statement under the day they happened. The local
-- midnight of a time and the short form of a date are the platform's.
use mathlib.Core.Path.{subst}
use mathlib.Core.List.{append-nil, append_assoc}
use max_one.Prelude.{
  ℕ, ◌+◌, ◌-◌, ◌/◌, ◌≡◌, ◌≢◌, refl, sym, ap, ◌∙◌, String, Bool, false, not, ◌&&◌, List, [], ◌∷◌,
  ◌++◌, leb, ◌==◌, if◌then◌else◌, str_eq, eq_iff, inl, inr, Bool-cases, All,
}

pub record Calendar : Type 0 where
  -- the local midnight before a time, in milliseconds
  pub start_of_day : ℕ → ℕ
  -- `toLocaleDateString`, with the year if asked
  pub short_date : Bool → ℕ → String
  pub full_year : ℕ → ℕ

abbrev pub day_ms : ℕ
day_ms = 86400000

-- `Math.round((startOfDay(now) - startOfDay(d)) / 86_400_000) === days`, for 0 and 1; half a day
-- rounds up.
abbrev pub is_days_before : ℕ → ℕ → ℕ → Bool
is_days_before days today day =
    if leb day today
    then (today - day + 43200000) / day_ms == days
    else days == 0 && leb (day - today) 43200000

module _ (calendar : Calendar) where
  abbrev pub day_label : ℕ → ℕ → String
  day_label now at =
      let today = calendar.start_of_day now in
      let day = calendar.start_of_day at in
      if is_days_before 0 today day
      then "Today"
      else if is_days_before 1 today day
      then "Yesterday"
      else calendar.short_date (not (calendar.full_year at == calendar.full_year now)) at

pub record Group (R : Type 0) : Type 0 where
  pub label : String
  pub items : List R

module _ {R : Type 0} (label_of : R → String) where
  -- One round of the loop: the last group takes the row, or a new one is put behind it.
  unfoldable pub add_row : R → List (Group R) → List (Group R)
  add_row row [] = record { label = label_of row; items = row ∷ [] } ∷ []
  add_row row (g ∷ []) =
      if str_eq g.label (label_of row)
      then record g { items = g.items ++ row ∷ [] } ∷ []
      else g ∷ record { label = label_of row; items = row ∷ [] } ∷ []
  add_row row (g ∷ h ∷ groups) = g ∷ add_row row (h ∷ groups)

  unfoldable pub group_from : List (Group R) → List R → List (Group R)
  unfolding add_row
  group_from groups [] = groups
  group_from groups (row ∷ rows) = group_from (add_row row groups) rows

-- `groupByDay`, over the times of the rows
unfoldable pub group_by_day : {R : Type 0} → Calendar → (R → ℕ) → ℕ → List R → List (Group R)
unfolding group_from
group_by_day calendar created_at now rows =
    group_from (λ r. day_label calendar now (created_at r)) [] rows

abbrev pub all_items : {R : Type 0} → List (Group R) → List R
all_items [] = []
all_items (g ∷ groups) = g.items ++ all_items groups

-- Each group holds rows, all of its label, and the next group has another label.
abbrev pub IsGrouped : {R : Type 0} → (R → String) → List (Group R) → Type 0
IsGrouped label_of [] = Unit
IsGrouped label_of (g ∷ []) = (g.items ≢ []) × All (λ r. label_of r ≡ g.label) g.items
IsGrouped label_of (g ∷ h ∷ groups) =
    (g.items ≢ [])
    × All (λ r. label_of r ≡ g.label) g.items
    × (str_eq g.label h.label ≡ false)
    × IsGrouped label_of (h ∷ groups)

All-snoc :
    {R : Type 0} (P : R → Type 0) (xs : List R) (x : R) → All P xs → P x → All P (xs ++ x ∷ [])
All-snoc P [] x h p = (p, tt)
All-snoc P (y ∷ xs) x h p = (h.0, All-snoc P xs x h.1 p)

snoc-ne-nil : {R : Type 0} (xs : List R) (x : R) → xs ++ x ∷ [] ≢ []
snoc-ne-nil [] x e = cc
snoc-ne-nil (y ∷ xs) x e = cc

module _ {R : Type 0} (label_of : R → String) where
  all_items-add_row :
      (row : R) (groups : List (Group R))
      → all_items (add_row label_of row groups) ≡ all_items groups ++ row ∷ []
  unfolding add_row
  all_items-add_row row [] = refl
  all_items-add_row row (g ∷ []) = elim (Bool-cases (str_eq g.label (label_of row))) [
    | inl same ↦
        rw same
          (append-nil (g.items ++ row ∷ []) ∙ ap (λ x. x ++ row ∷ []) (sym (append-nil g.items)))
    | inr other ↦ rw other (ap (λ x. x ++ row ∷ []) (sym (append-nil g.items)))
  ]
  all_items-add_row row (g ∷ h ∷ groups) =
      ap (λ x. g.items ++ x) (all_items-add_row row (h ∷ groups))
      ∙ sym (append_assoc g.items (all_items (h ∷ groups)) (row ∷ []))

  -- The first group keeps its label.
  add_row-head :
      (row : R) (g : Group R) (groups : List (Group R))
      → (g' : Group R) × (rest : List (Group R)) × (add_row label_of row (g ∷ groups) ≡ g' ∷ rest)
        × (g'.label ≡ g.label)
  unfolding add_row
  add_row-head row g [] = elim (Bool-cases (str_eq g.label (label_of row))) [
    | inl same ↦ (record g { items = g.items ++ row ∷ [] }, [], rw same, refl)
    | inr other ↦ (g, record { label = label_of row; items = row ∷ [] } ∷ [], rw other, refl)
  ]
  add_row-head row g (h ∷ groups) = (g, add_row label_of row (h ∷ groups), refl, refl)

  add_row-IsGrouped :
      (row : R) (groups : List (Group R))
      → IsGrouped label_of groups
      → IsGrouped label_of (add_row label_of row groups)
  unfolding add_row
  add_row-IsGrouped row [] h = ((λ e. cc), (refl, tt))
  add_row-IsGrouped row (g ∷ []) h = elim (Bool-cases (str_eq g.label (label_of row))) [
    | inl same ↦ rw same (
      snoc-ne-nil g.items row,
      All-snoc (λ r. label_of r ≡ g.label) g.items row h.1
          (sym ((eq_iff g.label (label_of row)).0 same)),
    )
    | inr other ↦ rw other (h.0, h.1, other, ((λ e. cc), (refl, tt)))
  ]
  add_row-IsGrouped row (g ∷ h ∷ groups) k =
      let (h', rest, e, label) = add_row-head row h groups in
      let ih = add_row-IsGrouped row (h ∷ groups) k.3 in
      rw e (k.0, k.1, rw label k.2, subst (λ x. IsGrouped label_of x) e ih)

  group_from_splits :
      (rows : List R) (groups : List (Group R))
      → IsGrouped label_of groups
      → IsGrouped label_of (group_from label_of groups rows)
        × (all_items (group_from label_of groups rows) ≡ all_items groups ++ rows)
  unfolding group_from
  group_from_splits [] groups h = (h, sym (append-nil (all_items groups)))
  group_from_splits (row ∷ rows) groups h =
      let (grouped, all_) =
        group_from_splits rows (add_row label_of row groups) (add_row-IsGrouped row groups h) in
      (
        grouped,
        all_
            ∙ ap (λ x. x ++ rows) (all_items-add_row row groups)
            ∙ append_assoc (all_items groups) (row ∷ []) rows,
      )

-- A statement grouped by day shows every row, in order: each group holds at least one row, all
-- under its label, and the group after it has another label.
pub group_by_day_splits :
    {R : Type 0} (calendar : Calendar) (created_at : R → ℕ) (now : ℕ) (rows : List R)
    → let groups = group_by_day calendar created_at now rows in
      IsGrouped (λ r. day_label calendar now (created_at r)) groups × (all_items groups ≡ rows)
unfolding group_by_day
group_by_day_splits calendar created_at now rows =
    group_from_splits (λ r. day_label calendar now (created_at r)) rows [] tt
