-- ===== src/Runs/Limit.antt =====
-- The writes to `pipeline_run` of src/core/orchestrator, each transaction of the database one step, and the
-- concurrency limit (pipeline-run-service.ts).
use fluxaos.Prelude.{
  find, none, All-update, ℕ, ◌≤◌, ◌<◌, ◌≡◌, refl, subst, Bool, false, List, [], ◌∷◌, arith, All,
  All-append, All-map, count, count-append, update_where, ◌==◌, ==_iff, Bool-cases, inl, inr,
}
use fluxaos.Store.{PipelineRunStatus, is_run_running, PipelineRun, Db, run_has_id}
use fluxaos.Runs.Service.{
  create_run, get_running_runs, has_running_status, claims, start_run, set_run_status, fail_run,
  try_acquire_running_slot, update_run_status, complete_run, fail_stage_and_run,
}
use fluxaos.Runs.Slots.{AreUnique, count_running-le, count_id-update, running-le_max}

-- A write to `pipeline_run` that starts no run except by a claim: of the writes of a status, those of `running` are
-- left out. `rewritten` is a write of other columns, as of the path of the artifacts, and `elsewhere` one of other
-- tables.
pub data Step (max_concurrent : ℕ) (db : Db) : Db → Type 0 where
  created :
      (pipeline_id issue_id : ℕ) → Step max_concurrent db (create_run pipeline_id issue_id db).1
  attempted : (id : ℕ) → Step max_concurrent db (try_acquire_running_slot id max_concurrent db).1
  updated :
      (id : ℕ) (status : PipelineRunStatus)
      → is_run_running status ≡ false
      → Step max_concurrent db (update_run_status id status db)
  completed :
      (id : ℕ) (status : PipelineRunStatus)
      → is_run_running status ≡ false
      → Step max_concurrent db (complete_run id status db)
  failed : (stage_run_id id : ℕ) → Step max_concurrent db (fail_stage_and_run stage_run_id id db)
  rewritten :
      (id : ℕ) (f : PipelineRun → PipelineRun)
      → ((r : PipelineRun) → (f r).id ≡ r.id)
      → ((r : PipelineRun) → (f r).status ≡ r.status)
      → Step max_concurrent db (record db { runs = update_where (run_has_id id) f db.runs })
  elsewhere :
      (after : Db)
      → after.runs ≡ db.runs
      → db.next_id ≤ after.next_id
      → Step max_concurrent db after

pub data Reach (max_concurrent : ℕ) (db : Db) : Db → Type 0 where
  here : Reach max_concurrent db db
  next :
      {between after : Db}
      → Reach max_concurrent db between
      → Step max_concurrent between after
      → Reach max_concurrent db after

pub record IsWithin (max_concurrent : ℕ) (db : Db) : Type 0 where
  pub unique : AreUnique db.runs
  pub numbered : All (λ (r : PipelineRun). r.id < db.next_id) db.runs
  pub within : get_running_runs db ≤ max_concurrent

-- The next id is that of no run.
pub fresh_run :
    (n : ℕ) (rs : List PipelineRun)
    → All (λ (r : PipelineRun). r.id < n) rs
    → find (run_has_id n) rs ≡ none
unfolding find
fresh_run n [] h = refl
fresh_run n (r ∷ rs) h =
    let below = h.0 in
    let other : (r.id == n) ≡ false = ground (arith, below) in rw other (fresh_run n rs h.1)

count_id_fresh :
    (n : ℕ) (rs : List PipelineRun)
    → All (λ (r : PipelineRun). r.id < n) rs
    → count (run_has_id n) rs ≡ 0
unfolding count
count_id_fresh n [] h = refl
count_id_fresh n (r ∷ rs) h = let below = h.0 in ground (arith, count_id_fresh n rs h.1)

-- A write that starts no run.
update-IsWithin :
    (n : ℕ) (p : PipelineRun → Bool) (f : PipelineRun → PipelineRun) (db after : Db)
    → ((r : PipelineRun) → (f r).id ≡ r.id)
    → ((r : PipelineRun) → is_run_running (f r).status ≡ false)
    → after.runs ≡ update_where p f db.runs
    → after.next_id ≡ db.next_id
    → IsWithin n db
    → IsWithin n after
unfolding get_running_runs
update-IsWithin n p f db after same stops runs ids w = record {
  unique = λ id. rw (runs, count_id-update p f id db.runs same) (w.unique id);
  numbered =
      rw (runs, ids)
        (All-update _ (λ (r : PipelineRun). r.id < db.next_id) p f db.runs
          (λ r h written. rw (same r) h) (λ r h kept. h) w.numbered);
  within = rw runs (omega (arith, count_running-le p f db.runs stops, w.within));
}

attempted-IsWithin :
    (n id : ℕ) (db : Db) → IsWithin n db → IsWithin n (try_acquire_running_slot id n db).1
attempted-IsWithin n id db w = record {
  unique = λ i.
      unfold try_acquire_running_slot in
      rw (count_id-update (claims id n db) (start_run db.now) i db.runs (λ r. refl)) (w.unique i);
  numbered =
      unfold try_acquire_running_slot in
      All-update _ (λ (r : PipelineRun). r.id < db.next_id) (claims id n db) (start_run db.now)
        db.runs (λ r h claimed. h) (λ r h kept. h) w.numbered;
  within = running-le_max id n db w.unique w.within;
}

created-IsWithin :
    (n pipeline_id issue_id : ℕ) (db : Db)
    → IsWithin n db
    → IsWithin n (create_run pipeline_id issue_id db).1
unfolding create_run get_running_runs count
created-IsWithin n pipeline_id issue_id db w = record {
  unique = λ id. rw (count-append (run_has_id id) db.runs _) (elim (Bool-cases (db.next_id == id)) [
    | inl e ↦
        let fresh = count_id_fresh db.next_id db.runs w.numbered in
        let none_yet = subst (λ i. count (run_has_id i) db.runs ≡ 0) ((==_iff _ id).0 e) fresh in
        rw e (omega arith)
    | inr e ↦ rw e (omega (arith, w.unique id))
  ]);
  numbered =
      All-append _ db.runs _
        (All-map _ _ db.runs (λ r (h : r.id < db.next_id). omega arith) w.numbered)
        (omega arith, tt);
  within = rw (count-append has_running_status db.runs _) (omega (arith, w.within));
}

-- A write of other columns leaves the runs that are running.
pub count_running-same :
    (p : PipelineRun → Bool) (f : PipelineRun → PipelineRun) (rs : List PipelineRun)
    → ((r : PipelineRun) → (f r).status ≡ r.status)
    → count has_running_status (update_where p f rs) ≡ count has_running_status rs
unfolding count update_where
count_running-same p f [] h = refl
count_running-same p f (r ∷ rs) h = elim (Bool-cases (p r)) [
  | inl e ↦ rw (e, h r) (ground (arith, count_running-same p f rs h))
  | inr e ↦ rw e (ground (arith, count_running-same p f rs h))
]

rewritten-IsWithin :
    (n id : ℕ) (f : PipelineRun → PipelineRun) (db : Db)
    → ((r : PipelineRun) → (f r).id ≡ r.id)
    → ((r : PipelineRun) → (f r).status ≡ r.status)
    → IsWithin n db
    → IsWithin n (record db { runs = update_where (run_has_id id) f db.runs })
unfolding get_running_runs
rewritten-IsWithin n id f db same kept w = record {
  unique = λ i. rw (count_id-update (run_has_id id) f i db.runs same) (w.unique i);
  numbered =
      All-update _ (λ (r : PipelineRun). r.id < db.next_id) (run_has_id id) f db.runs
        (λ r h written. rw (same r) h) (λ r h missed. h) w.numbered;
  within = rw (count_running-same (run_has_id id) f db.runs kept) w.within;
}

Step-IsWithin : {n : ℕ} {db after : Db} → Step n db after → IsWithin n db → IsWithin n after
Step-IsWithin {n} {db} (created p i) w = created-IsWithin n p i db w
Step-IsWithin {n} {db} (attempted id) w = attempted-IsWithin n id db w
Step-IsWithin {n} {db} (updated id status h) w =
    unfold update_run_status in
    update-IsWithin n (run_has_id id) (set_run_status status db.now) db _ (λ r. refl) (λ r. h) refl
      refl w
Step-IsWithin {n} {db} (completed id status h) w =
    unfold complete_run in update-IsWithin n (run_has_id id) _ db _ (λ r. refl) (λ r. h) refl refl w
Step-IsWithin {n} {db} (failed s id) w =
    unfold fail_stage_and_run in
    update-IsWithin n (run_has_id id) (fail_run db.now) db _ (λ r. refl) (λ r. refl) refl refl w
Step-IsWithin {n} {db} (rewritten id f same kept) w = rewritten-IsWithin n id f db same kept w
Step-IsWithin {n} {db} (elsewhere after runs ids) w = record {
  unique = λ id. rw runs (w.unique id);
  numbered = rw runs (All-map _ _ db.runs (λ r (h : r.id < db.next_id). omega arith) w.numbered);
  within = unfold get_running_runs in rw runs w.within;
}

-- From a store within the limit, every interleaving of claims by any number of callers with the other writes to
-- runs, of which none sets the status running, stays within it, and keeps the ids unique.
pub Reach-IsWithin : {n : ℕ} {db after : Db} → IsWithin n db → Reach n db after → IsWithin n after
Reach-IsWithin w here = w
Reach-IsWithin w (next r s) = Step-IsWithin s (Reach-IsWithin w r)
