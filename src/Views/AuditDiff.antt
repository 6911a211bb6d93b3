-- ===== src/Views/AuditDiff.antt =====
-- frontend/lib/audit-diff.ts: the changes between the two snapshots of an audit row. A snapshot that is
-- no object reads as one without keys.
pub mod Changes
use mathlib.Core.Path.{subst}
use mathlib.Core.List.{append-nil}
use max_one.Prelude.{
  ◌≡◌, ◌≢◌, ◌⊎◌, refl, sym, ap, ◌∙◌, String, Bool, true, false, Option, none, some, List, [], ◌∷◌,
  ◌++◌, str_eq, eq_iff, if◌then◌else◌, arith, inl, inr, Bool-cases,
}

-- What a key holds: what `JSON.stringify` makes of it is a text, or undefined for a method.
pub data Value : Type 0 where
  json : String → Value
  method : Value

-- The own keys of an object, which are all different in JavaScript; of two equal ones here the
-- first counts.
abbrev pub Snapshot : Type 0
Snapshot = List (String × Value)

unfoldable pub lookup : String → Snapshot → Option Value
lookup key [] = none
lookup key ((k, v) ∷ s) = if str_eq k key then some v else lookup key s

-- `Object.prototype`, of which `in` finds the keys too
abbrev pub prototype : Snapshot
prototype =
    ("constructor", method)
    ∷ ("__defineGetter__", method)
    ∷ ("__defineSetter__", method)
    ∷ ("hasOwnProperty", method)
    ∷ ("__lookupGetter__", method)
    ∷ ("__lookupSetter__", method)
    ∷ ("isPrototypeOf", method)
    ∷ ("propertyIsEnumerable", method)
    ∷ ("toString", method)
    ∷ ("valueOf", method)
    ∷ ("__proto__", json "{}")
    ∷ ("toLocaleString", method)
    ∷ []

abbrev inherited : Option Value → Option Value → Option Value
inherited none proto = proto
inherited (some v) proto = some v

-- `key in a`, and `a[key]` where it is
unfoldable pub read : String → Snapshot → Option Value
unfolding lookup
read key s = inherited (lookup key s) (lookup key prototype)

unfoldable pub has_key : String → List String → Bool
has_key key [] = false
has_key key (k ∷ ks) = if str_eq k key then true else has_key key ks

abbrev pub keys : Snapshot → List String
keys [] = []
keys ((k, v) ∷ s) = k ∷ keys s

-- `Array.from(new Set(keys))`: the first of equal keys stays.
unfoldable pub distinct : List String → List String → List String
unfolding has_key
distinct seen [] = []
distinct seen (k ∷ ks) = if has_key k seen then distinct seen ks else k ∷ distinct (k ∷ seen) ks

pub data Change : Type 0 where
  changed : (before after : Value) → Change
  added : (after : Value) → Change
  removed : (before : Value) → Change

pub record DiffRow : Type 0 where
  pub key : String
  pub change : Change

-- Whether `JSON.stringify` makes the same of both
abbrev pub same_json : Value → Value → Bool
same_json (json x) (json y) = str_eq x y
same_json (json x) method = false
same_json method (json y) = false
same_json method method = true

-- The branches of the loop
abbrev pub compare_values : Option Value → Option Value → Option Change
compare_values (some x) (some y) = if same_json x y then none else some (changed x y)
compare_values none (some y) = some (added y)
compare_values (some x) none = some (removed x)
compare_values none none = none

abbrev pub push_row : String → Option Change → List DiffRow → List DiffRow
push_row key none rows = rows
push_row key (some c) rows = record { key = key; change = c } ∷ rows

unfoldable pub diff_keys : Snapshot → Snapshot → List String → List DiffRow
unfolding read
diff_keys a b [] = []
diff_keys a b (k ∷ ks) = push_row k (compare_values (read k a) (read k b)) (diff_keys a b ks)

-- `diffSnapshots`
unfoldable pub diff_snapshots : Snapshot → Snapshot → List DiffRow
unfolding diff_keys distinct
diff_snapshots a b = diff_keys a b (distinct [] (keys a ++ keys b))
