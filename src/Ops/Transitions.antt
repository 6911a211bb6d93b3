-- ===== src/Ops/Transitions.antt =====
-- The alerts of ops-watch.service.ts against an edge detector.
use mathlib.Core.List.{append-nil, append_assoc}
use max_one.Prelude.{
  ◌≡◌, refl, sym, ap, ◌∙◌, String, Bool, true, false, Option, none, some, List, [], ◌∷◌, ◌++◌,
  if◌then◌else◌, str_eq, inl, inr, Bool-cases,
}
use max_one.World.{Prisma, World}
use max_one.Ops.Watch.{
  Probe, OpsSnapshot, Report, alert, recovered, snapshot_failed, OpsWatch, snapshot, watch, report,
  refresh, run, boot, has_dead_letters, is_stuck,
}

-- The two conditions that are watched
pub data Watched : Type 0 where
  dead_letters outbox_stuck : Watched

abbrev pub key_of : Watched → String
key_of dead_letters = "dead-letters"
key_of outbox_stuck = "outbox-stuck"

abbrev pub holds : Watched → OpsSnapshot → Bool
holds dead_letters snap = has_dead_letters snap
holds outbox_stuck snap = is_stuck snap

abbrev add_reading : Watched → Option OpsSnapshot → List Bool → List Bool
add_reading x none bs = bs
add_reading x (some snap) bs = holds x snap ∷ bs

-- What the snapshots of some ticks say of a condition; a tick that fails says nothing.
abbrev pub readings : {p : Prisma} → Watched → List (Probe × World p) → List Bool
readings x [] = []
readings x ((probe, w) ∷ ticks) = add_reading x (snapshot probe w) (readings x ticks)

-- The values at which a signal changes, after `was`
abbrev pub edges : Bool → List Bool → List Bool
edges was [] = []
edges true (true ∷ bs) = edges true bs
edges false (false ∷ bs) = edges false bs
edges true (false ∷ bs) = false ∷ edges false bs
edges false (true ∷ bs) = true ∷ edges true bs

abbrev pub last : Bool → List Bool → Bool
last was [] = was
last was (b ∷ bs) = last b bs

-- What was reported under a key: true for an alert, false for a recovery
abbrev pub reported : String → List Report → List Bool
reported key [] = []
reported key (alert k snap ∷ rs) = if str_eq k key then true ∷ reported key rs else reported key rs
reported key (recovered k ∷ rs) = if str_eq k key then false ∷ reported key rs else reported key rs
reported key (snapshot_failed ∷ rs) = reported key rs

reported-append :
    (key : String) (rs qs : List Report)
    → reported key (rs ++ qs) ≡ reported key rs ++ reported key qs
reported-append key [] qs = refl
reported-append key (alert k snap ∷ rs) qs = elim (Bool-cases (str_eq k key)) [
  | inl same ↦ rw same (ap (λ x. true ∷ x) (reported-append key rs qs))
  | inr other ↦ rw other (reported-append key rs qs)
]
reported-append key (recovered k ∷ rs) qs = elim (Bool-cases (str_eq k key)) [
  | inl same ↦ rw same (ap (λ x. false ∷ x) (reported-append key rs qs))
  | inr other ↦ rw other (reported-append key rs qs)
]
reported-append key (snapshot_failed ∷ rs) qs = reported-append key rs qs

edges_step : (was b : Bool) (bs : List Bool) → edges was (b ∷ bs) ≡ edges was (b ∷ []) ++ edges b bs
edges_step true true bs = refl
edges_step true false bs = refl
edges_step false true bs = refl
edges_step false false bs = refl

module _ (k : String) (b : Bool) (snap : OpsSnapshot) (s : OpsWatch) where
  -- A watch reports a change of its key...
  watch_same :
      str_eq k k ≡ true
      → (reported k (watch k b snap s).reports
          ≡ reported k s.reports ++ edges (s.breached k) (b ∷ []))
        × ((watch k b snap s).breached k ≡ b)
  unfolding watch
  watch_same h =
      let split = λ (r : Report). reported-append k s.reports (r ∷ []) in
      elim (Bool-cases b) [
        | inl on ↦ elim (Bool-cases (s.breached k)) [
          | inl was ↦ rw (on, was) (sym (append-nil (reported k s.reports)), was)
          | inr was ↦ rw (on, was) (split (alert k snap) ∙ rw h refl, rw h refl)
        ]
        | inr off ↦ elim (Bool-cases (s.breached k)) [
          | inl was ↦ rw (off, was) (split (recovered k) ∙ rw h refl, rw h refl)
          | inr was ↦ rw (off, was) (sym (append-nil (reported k s.reports)), was)
        ]
      ]

  -- ... and nothing of another.
  watch_other :
      (key : String)
      → str_eq k key ≡ false
      → (reported key (watch k b snap s).reports ≡ reported key s.reports)
        × ((watch k b snap s).breached key ≡ s.breached key)
  unfolding watch
  watch_other key h =
      let split = λ (r : Report). reported-append key s.reports (r ∷ []) in
      let same = append-nil (reported key s.reports) in
      elim (Bool-cases b) [
        | inl on ↦ elim (Bool-cases (s.breached k)) [
          | inl was ↦ rw (on, was) (refl, refl)
          | inr was ↦ rw (on, was) (split (alert k snap) ∙ rw h same, rw h refl)
        ]
        | inr off ↦ elim (Bool-cases (s.breached k)) [
          | inl was ↦ rw (off, was) (split (recovered k) ∙ rw h same, rw h refl)
          | inr was ↦ rw (off, was) (refl, refl)
        ]
      ]

-- A snapshot reports each of the two by its own watch.
report_lem :
    (x : Watched) (snap : OpsSnapshot) (s : OpsWatch)
    → (reported (key_of x) (report (some snap) s).reports
        ≡ reported (key_of x) s.reports ++ edges (s.breached (key_of x)) (holds x snap ∷ []))
      × ((report (some snap) s).breached (key_of x) ≡ holds x snap)
unfolding report
report_lem dead_letters snap s =
    let s' = record s { gauges = some snap } in
    let (told, now) = watch_same "dead-letters" (has_dead_letters snap) snap s' refl in
    let (told', now') =
      watch_other "outbox-stuck" (is_stuck snap) snap
        (watch "dead-letters" (has_dead_letters snap) snap s') "dead-letters" refl in
    (told' ∙ told, now' ∙ now)
report_lem outbox_stuck snap s =
    let s' = record s { gauges = some snap } in
    let (told, now) =
      watch_other "dead-letters" (has_dead_letters snap) snap s' "outbox-stuck" refl in
    let (told', now') =
      watch_same "outbox-stuck" (is_stuck snap) snap
        (watch "dead-letters" (has_dead_letters snap) snap s') refl in
    (told' ∙ (rw (told, now) refl), now')

report_idle :
    (x : Watched) (s : OpsWatch)
    → reported (key_of x) (report none s).reports ≡ reported (key_of x) s.reports
unfolding report
report_idle x s =
    reported-append (key_of x) s.reports (snapshot_failed ∷ [])
    ∙ append-nil (reported (key_of x) s.reports)

-- The reports of a run that begins with a tick, from those of the rest
then_lem :
    (x : Watched) (o : Option OpsSnapshot) (bs : List Bool) (s end : OpsWatch)
    → reported (key_of x) end.reports
      ≡ reported (key_of x) (report o s).reports ++ edges ((report o s).breached (key_of x)) bs
    → end.breached (key_of x) ≡ last ((report o s).breached (key_of x)) bs
    → (reported (key_of x) end.reports
        ≡ reported (key_of x) s.reports ++ edges (s.breached (key_of x)) (add_reading x o bs))
      × (end.breached (key_of x) ≡ last (s.breached (key_of x)) (add_reading x o bs))
unfolding report
then_lem x none bs s end told now =
    (told ∙ ap (λ r. r ++ edges (s.breached (key_of x)) bs) (report_idle x s), now)
then_lem x (some snap) bs s end told now =
    let (told', now') = report_lem x snap s in
    let old = reported (key_of x) s.reports in
    let was = s.breached (key_of x) in
    let b = holds x snap in
    (
      told
          ∙ ap (λ r. r ++ edges ((report (some snap) s).breached (key_of x)) bs) told'
          ∙ ap (λ c. (old ++ edges was (b ∷ [])) ++ edges c bs) now'
          ∙ append_assoc old (edges was (b ∷ [])) (edges b bs)
          ∙ ap (λ r. old ++ r) (sym (edges_step was b bs)),
      now ∙ ap (λ c. last c bs) now',
    )

run_lem :
    {p : Prisma} (x : Watched) (ticks : List (Probe × World p)) (s : OpsWatch)
    → (reported (key_of x) (run ticks s).reports
        ≡ reported (key_of x) s.reports ++ edges (s.breached (key_of x)) (readings x ticks))
      × ((run ticks s).breached (key_of x) ≡ last (s.breached (key_of x)) (readings x ticks))
unfolding run refresh
run_lem x [] s = (sym (append-nil (reported (key_of x) s.reports)), refl)
run_lem x ((probe, w) ∷ ticks) s =
    let (told, now) = run_lem x ticks (refresh probe w s) in
    then_lem x (snapshot probe w) (readings x ticks) s (run ticks (refresh probe w s)) told now

-- From the start of the process on, for each of the two watched conditions and any sequence of
-- ticks, failed snapshots among them: the alerts and recoveries that are reported are exactly the
-- changes of the condition from one snapshot to the next, and the service remembers its last
-- value.
pub run-edges :
    {p : Prisma} (x : Watched) (ticks : List (Probe × World p))
    → (reported (key_of x) (run ticks boot).reports ≡ edges false (readings x ticks))
      × ((run ticks boot).breached (key_of x) ≡ last false (readings x ticks))
run-edges x ticks = run_lem x ticks boot

unknown_depth :
    {p : Prisma} (probe : Probe) (w : World p)
    → probe.postgres_up ≡ true
    → probe.depth ≡ none
    → (snap : OpsSnapshot) × (snapshot probe w ≡ some snap) × (has_dead_letters snap ≡ false)
unfolding snapshot
unknown_depth probe w up_ gone = rw (up_, gone) (_, refl, refl)

-- Where dead letters have been reported, and Postgres answers but the broker does not tell the
-- depth of the queue, the next tick reports a recovery, and no longer remembers the breach.
pub outage_recovers :
    {p : Prisma} (probe : Probe) (w : World p) (s : OpsWatch)
    → probe.postgres_up ≡ true
    → probe.depth ≡ none
    → s.breached "dead-letters" ≡ true
    → (reported "dead-letters" (refresh probe w s).reports
        ≡ reported "dead-letters" s.reports ++ false ∷ [])
      × ((refresh probe w s).breached "dead-letters" ≡ false)
unfolding refresh
outage_recovers probe w s up_ gone was =
    let (snap, read, none_) = unknown_depth probe w up_ gone in
    let (told, now) = report_lem dead_letters snap s in
    rw read (told ∙ rw (none_, was) refl, now ∙ none_)
