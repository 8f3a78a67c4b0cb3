-- ===== src/Orchestrator/Claims.antt =====
-- `handleNewRun` of src/core/orchestrator/event-orchestrator.ts: what is claimed before a launch.
use fluxaos.Prelude.{
  ℕ, ◌+◌, ◌≤◌, ◌<◌, ◌≡◌, refl, sym, ◌∙◌, ap, subst, Bool, true, Option, none, some, List, [], ◌∷◌,
  inl, inr, arith, Bool-cases, Option-cases, find, find-passes, find-update, filter-All, All,
  All-map, sort_by-keeps, ==_iff, ◌==◌,
}
use fluxaos.Store.{
  is_stage_pending, PipelineRunStatus, PipelineRun, PipelineStage, StageRun, Db, run_has_id,
  is_run_pending,
}
use fluxaos.Runs.Service.{
  get_run, get_stages, get_running_runs, update_run_status, set_run_status,
  try_acquire_running_slot, claims, start_run, get_stage_runs,
}
use fluxaos.Runs.Slots.{claims_of, AreUnique, try_acquire_running_slot-effect, count_running-le}
use fluxaos.Orchestrator.Handlers.{stage_with_id, Launch, choose_stage, claim, take_up}

find-All {κ} :
    (P : PipelineStage → Type κ) (q : PipelineStage → Bool) (xs : List PipelineStage)
    (a : PipelineStage)
    → All P xs
    → find q xs ≡ some a
    → P a
unfolding find
find-All P q [] a all h = absurd (cc)
find-All P q (x ∷ xs) a all h = elim (Bool-cases (q x)) [
  | inl e ↦ let same : some x ≡ some a = rw e at h in let same' : x ≡ a = cc in subst P same' all.0
  | inr e ↦ find-All P q xs a all.1 (rw e at h)
]

abbrev IsOf : PipelineRun → PipelineStage → Type 0
IsOf run s = s.pipeline_id ≡ run.pipeline_id

get_stages-All : (run : PipelineRun) (db : Db) → All (IsOf run) (get_stages run.pipeline_id db)
unfolding get_stages
get_stages-All run db = sort_by-keeps _ (IsOf run) _ (
    All-map _ (IsOf run) _ (λ s h. (==_iff s.pipeline_id run.pipeline_id).0 h)
      (filter-All (λ (s : PipelineStage). s.pipeline_id == run.pipeline_id) db.stages))

choose_stage-run :
    (run : PipelineRun) (first : PipelineStage) (rest : List PipelineStage) (db : Db)
    → All (IsOf run) (first ∷ rest)
    → ((choose_stage run first (first ∷ rest) db).run ≡ run)
      × IsOf run (choose_stage run first (first ∷ rest) db).stage
unfolding choose_stage
choose_stage-run run first rest db all =
    elim (Option-cases
      (find (λ (s : StageRun). is_stage_pending s.status) (get_stage_runs run.id db))) [
        | inl e ↦ rw e (refl, all.0)
        | inr (seed, e) ↦
            elim (Option-cases (find (stage_with_id seed.pipeline_stage_id) (first ∷ rest))) [
              | inl f ↦ rw (e, f) (refl, all.0)
              | inr (s, f) ↦
                  rw (e, f)
                    (
                      refl,
                      find-All (IsOf run) (stage_with_id seed.pipeline_stage_id) (first ∷ rest) s
                          all f,
                    )
            ]
      ]

-- A claimed run is running, so that it cannot be taken up again.
taken-again :
    (max_concurrent run_id : ℕ) (run : PipelineRun) (db : Db)
    → get_run run_id db ≡ some run
    → claims run_id max_concurrent db run ≡ true
    → take_up max_concurrent run_id (try_acquire_running_slot run_id max_concurrent db).1
      ≡ (none, (try_acquire_running_slot run_id max_concurrent db).1)
unfolding take_up try_acquire_running_slot get_run
taken-again max_concurrent run_id run db found claimed =
    let after =
      find-update (run_has_id run_id) (claims run_id max_concurrent db) (start_run db.now) db.runs
        run (λ r. refl) found in
    rw after (rw claimed refl)

-- What a call has claimed, from the store `db`: a launch is that of a stored pending run, at a stage of
-- its pipeline, with one more run running, within the limit, and with a store where the run is not taken
-- up again; without a launch no run was started.
abbrev pub Claimed : ℕ → ℕ → Db → Option Launch × Db → Type 0
Claimed max_concurrent run_id db (some l, db') =
    (get_run run_id db ≡ some l.run)
    × (l.run.status ≡ PipelineRunStatus.pending)
    × (l.stage.pipeline_id ≡ l.run.pipeline_id)
    × (get_running_runs db' ≡ get_running_runs db + 1)
    × (get_running_runs db' ≤ max_concurrent)
    × (take_up max_concurrent run_id db' ≡ (none, db'))
Claimed max_concurrent run_id db (none, db') = get_running_runs db' ≤ get_running_runs db

pub same_id :
    (run_id : ℕ) (db : Db) (run : PipelineRun) → get_run run_id db ≡ some run → run.id ≡ run_id
unfolding get_run
same_id run_id db run found =
    (==_iff run.id run_id).0 (find-passes (run_has_id run_id) db.runs run found)

module _ (max_concurrent : ℕ) (db : Db) (unique : AreUnique db.runs) (run : PipelineRun)
    (found : get_run run.id db ≡ some run) (pending : is_run_pending run.status ≡ true) where
  is_pending : run.status ≡ PipelineRunStatus.pending
  is_pending = ground arith

  claim-Claimed :
      (stages : List PipelineStage)
      → All (IsOf run) stages
      → Claimed max_concurrent run.id db (claim max_concurrent run stages db)
  unfolding get_running_runs update_run_status get_run
  claim-Claimed [] all =
      count_running-le (run_has_id run.id) (set_run_status PipelineRunStatus.failed db.now) db.runs
        (λ r. refl)
  claim-Claimed (first ∷ rest) all =
      elim (try_acquire_running_slot-effect run.id max_concurrent db unique) [
        | inl (acquired, more, within) ↦
            let after = (try_acquire_running_slot run.id max_concurrent db).1 in
            let (is_run, is_of) = choose_stage-run run first rest after all in
            let free : get_running_runs db < max_concurrent = omega (arith, more, within) in
            rw acquired (
              found ∙ ap some (sym is_run),
              ap (λ (r : PipelineRun). r.status) is_run ∙ is_pending,
              is_of ∙ sym (ap (λ (r : PipelineRun). r.pipeline_id) is_run),
              more,
              within,
              taken-again max_concurrent run.id run db found (
                  claims_of run.id max_concurrent db run
                    (find-passes (run_has_id run.id) db.runs run found) is_pending free),
            )
        | inr (refused, same) ↦ rw refused (rw same (omega arith))
      ]

-- `handleNewRun`, up to its launch: a launch is that of a stored pending run, at a stage of its own
-- pipeline, with one more run running, within the limit, and the same call would not launch it again;
-- without a launch no more runs are running than before.
pub take_up-Claimed :
    (max_concurrent run_id : ℕ) (db : Db)
    → AreUnique db.runs
    → Claimed max_concurrent run_id db (take_up max_concurrent run_id db)
unfolding take_up
take_up-Claimed max_concurrent run_id db unique = elim (Option-cases (get_run run_id db)) [
  | inl e ↦ rw e (omega arith)
  | inr (run, e) ↦ elim (Bool-cases (is_run_pending run.status)) [
    | inl p ↦
        let same = same_id run_id db run e in
        rw (e, p)
          (subst
            (λ i.
              Claimed max_concurrent i db
                (claim max_concurrent run (get_stages run.pipeline_id db) db))
            same
            (claim-Claimed max_concurrent db unique run (ap (λ i. get_run i db) same ∙ e) p
              (get_stages run.pipeline_id db) (get_stages-All run db)))
    | inr p ↦ rw (e, p) (omega arith)
  ]
]
