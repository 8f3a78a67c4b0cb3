-- ===== src/Runs/Slots.antt =====
-- `tryAcquireRunningSlot` of src/core/orchestrator/pipeline-run-service.ts: the concurrency limit.
use fluxaos.Prelude.{
  ◌⊎◌, ℕ, ◌+◌, ◌≤◌, ◌<◌, ◌≡◌, ◌↔◌, refl, Bool, true, false, some, List, [], ◌∷◌, arith, find, count,
  update_where, ltb, ltb→lt, ==_iff, find-passes, Bool-cases, inl, inr,
}
use fluxaos.Store.{PipelineRunStatus, is_run_running, PipelineRun, Db, run_has_id}
use fluxaos.Runs.Service.{
  get_run, get_running_runs, has_running_status, claims, start_run, try_acquire_running_slot,
}

-- The primary key: no two runs have the same id, and the next id is not taken.
abbrev pub AreUnique : List PipelineRun → Type 0
AreUnique rs = (id : ℕ) → count (run_has_id id) rs ≤ 1

-- A write that starts the rows it changes, which were pending, adds them to the running ones.
count_running-start :
    (p : PipelineRun → Bool) (now : ℕ) (rs : List PipelineRun)
    → ((r : PipelineRun) → p r ≡ true → is_run_running r.status ≡ false)
    → count has_running_status (update_where p (start_run now) rs)
      ≡ count has_running_status rs + count p rs
unfolding count update_where
count_running-start p now [] h = omega arith
count_running-start p now (r ∷ rs) h = ground (arith, h r, count_running-start p now rs h)

-- A write to a status other than `running` adds no running row.
pub count_running-le :
    (p : PipelineRun → Bool) (f : PipelineRun → PipelineRun) (rs : List PipelineRun)
    → ((r : PipelineRun) → is_run_running (f r).status ≡ false)
    → count has_running_status (update_where p f rs) ≤ count has_running_status rs
unfolding count update_where
count_running-le p f [] h = omega arith
count_running-le p f (r ∷ rs) h = ground (arith, h r, count_running-le p f rs h)

pub count_id-update :
    (p : PipelineRun → Bool) (f : PipelineRun → PipelineRun) (id : ℕ) (rs : List PipelineRun)
    → ((r : PipelineRun) → (f r).id ≡ r.id)
    → count (run_has_id id) (update_where p f rs) ≡ count (run_has_id id) rs
unfolding count update_where
count_id-update p f id [] h = refl
count_id-update p f id (r ∷ rs) h = ground (arith, h r, count_id-update p f id rs h)

count-claims-le :
    (id n : ℕ) (db : Db) (rs : List PipelineRun)
    → count (claims id n db) rs ≤ count (run_has_id id) rs
unfolding count
count-claims-le id n db [] = omega arith
count-claims-le id n db (r ∷ rs) = ground (arith, count-claims-le id n db rs)

-- Without a free slot no row is claimed.
count-claims_full :
    (id n : ℕ) (db : Db) (rs : List PipelineRun)
    → ltb (get_running_runs db) n ≡ false
    → count (claims id n db) rs ≡ 0
unfolding count
count-claims_full id n db [] h = refl
count-claims_full id n db (r ∷ rs) h = ground (arith, count-claims_full id n db rs h)

pub update_where_none :
    (p : PipelineRun → Bool) (f : PipelineRun → PipelineRun) (rs : List PipelineRun)
    → count p rs ≡ 0
    → update_where p f rs ≡ rs
unfolding count update_where
update_where_none p f [] h = refl
update_where_none p f (r ∷ rs) h = elim (Bool-cases (p r)) [
  | inl e ↦ absurd (ground arith)
  | inr e ↦ rw e (ground (arith, update_where_none p f rs))
]

claims_pending :
    (id n : ℕ) (db : Db) (r : PipelineRun)
    → claims id n db r ≡ true
    → is_run_running r.status ≡ false
claims_pending id n db r h = ground arith

claims-status :
    (id n : ℕ) (db : Db) (r : PipelineRun)
    → claims id n db r ≡ true
    → r.status ≡ PipelineRunStatus.pending
claims-status id n db r h = ground arith

pub claims_of :
    (id n : ℕ) (db : Db) (r : PipelineRun)
    → run_has_id id r ≡ true
    → r.status ≡ PipelineRunStatus.pending
    → get_running_runs db < n
    → claims id n db r ≡ true
claims_of id n db r h p f = ground arith

acquired_of :
    (id n : ℕ) (db : Db)
    → count (claims id n db) db.runs ≡ 1
    → (try_acquire_running_slot id n db).0 ≡ true
unfolding try_acquire_running_slot
acquired_of id n db h = (==_iff _ 1).1 h

module _ (id max_concurrent : ℕ) (db : Db) (unique : AreUnique db.runs) where
  abbrev after : Db
  after = (try_acquire_running_slot id max_concurrent db).1

  abbrev acquired : Bool
  acquired = (try_acquire_running_slot id max_concurrent db).0

  abbrev claimed : ℕ
  claimed = count (claims id max_concurrent db) db.runs

  running-after : get_running_runs after ≡ get_running_runs db + claimed
  unfolding try_acquire_running_slot
  running-after =
      count_running-start (claims id max_concurrent db) db.now db.runs
        (claims_pending id max_concurrent db)

  claimed-acquired : acquired ≡ true → claimed ≡ 1
  unfolding try_acquire_running_slot
  claimed-acquired h = (==_iff claimed 1).0 h

  claimed_refused : acquired ≡ false → claimed ≡ 0
  unfolding try_acquire_running_slot
  claimed_refused h = ground (arith, count-claims-le id max_concurrent db db.runs, unique id)

  free_acquired : acquired ≡ true → get_running_runs db < max_concurrent
  free_acquired h = elim (Bool-cases (ltb (get_running_runs db) max_concurrent)) [
    | inl free ↦ ltb→lt _ _ free
    | inr full ↦
        absurd
          (omega (arith, claimed-acquired h, count-claims_full id max_concurrent db db.runs full))
  ]

  -- Either the slot is acquired, and then one more run is running, within the limit; or it is refused,
  -- and then no run has changed.
  pub try_acquire_running_slot-effect :
      ((acquired ≡ true)
        × (get_running_runs after ≡ get_running_runs db + 1)
        × (get_running_runs after ≤ max_concurrent))
      ⊎ ((acquired ≡ false) × (after.runs ≡ db.runs))
  unfolding try_acquire_running_slot
  try_acquire_running_slot-effect = elim (Bool-cases acquired) [
    | inl h ↦
        let more = running-after in
        let one = claimed-acquired h in
        let free = free_acquired h in inl (h, omega arith, omega arith)
    | inr h ↦ inr (
      h,
      update_where_none (claims id max_concurrent db) (start_run db.now) db.runs
          (claimed_refused h),
    )
  ]

  -- With its limit respected before, an attempt leaves it respected.
  pub running-le_max :
      get_running_runs db ≤ max_concurrent → get_running_runs after ≤ max_concurrent
  running-le_max h = elim (Bool-cases acquired) [
    | inl e ↦ omega (arith, running-after, claimed-acquired e, free_acquired e)
    | inr e ↦ omega (arith, running-after, claimed_refused e)
  ]

found_claimed :
    (id n : ℕ) (db : Db) (rs : List PipelineRun)
    → count (run_has_id id) rs ≤ 1
    → count (claims id n db) rs ≡ 1
    → (r : PipelineRun) × (find (run_has_id id) rs ≡ some r) × (claims id n db r ≡ true)
unfolding count find
found_claimed id n db [] u h = absurd (omega arith)
found_claimed id n db (r ∷ rs) u h = elim (Bool-cases (claims id n db r)) [
  | inl e ↦ (r, ground arith, e)
  | inr e ↦
      let (q, found, c) = found_claimed id n db rs (ground arith) (ground arith) in
      (q, ground (arith, count-claims-le id n db rs), c)
]

claimed_found :
    (id n : ℕ) (db : Db) (r : PipelineRun) (rs : List PipelineRun)
    → find (run_has_id id) rs ≡ some r
    → claims id n db r ≡ true
    → 1 ≤ count (claims id n db) rs
unfolding count find
claimed_found id n db r [] f h = absurd (cc)
claimed_found id n db r (q ∷ rs) f h = ground (arith, claimed_found id n db r rs)

-- A slot is acquired exactly when the run exists, is pending, and fewer than `max_concurrent` runs are
-- running.
pub try_acquire_running_slot_iff :
    (id max_concurrent : ℕ) (db : Db)
    → AreUnique db.runs
    → ((try_acquire_running_slot id max_concurrent db).0 ≡ true) ↔ (
        (r : PipelineRun) × (get_run id db ≡ some r)
        × (r.status ≡ PipelineRunStatus.pending)
        × (get_running_runs db < max_concurrent))
unfolding get_run
try_acquire_running_slot_iff id n db unique = (
  λ h.
      let (r, found, c) =
        found_claimed id n db db.runs (unique id) (claimed-acquired id n db unique h) in
      (r, found, claims-status id n db r c, free_acquired id n db unique h),
  λ (r, found, pending, free).
      let some_claimed =
        claimed_found id n db r db.runs found
          (claims_of id n db r (find-passes _ db.runs r found) pending free) in
      let at_most = count-claims-le id n db db.runs in
      let one = unique id in acquired_of id n db (omega arith),
)
