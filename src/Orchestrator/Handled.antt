-- ===== src/Orchestrator/Handled.antt =====
-- `handleNewRun` of src/core/orchestrator/event-orchestrator.ts: what one call does to the runs.
use fluxaos.Prelude.{
  List, [], ◌∷◌, filter, any, not, ◌==◌, ==_refl, ap, ℕ, ◌≡◌, refl, subst, true, false, Option,
  none, some, ◌⊎◌, inl, inr, Bool-cases,
}
use fluxaos.Store.{PipelineRun, PipelineStage, StageRun, Db}
use fluxaos.Runs.Slots.{AreUnique}
use fluxaos.Executor.Ports.{Ports, World}
use fluxaos.Executor.Launch.{launch_stage, Ended, finished, failed, unfinished}
use fluxaos.Executor.Ends.{Accounts, IsOpen, IsEnded, launch_stage-ends_once}
use fluxaos.Orchestrator.Handlers.{
  Launch, Daemon, take_up, world_of, launch_taken, is_in_flight, handle_new_run,
}
use fluxaos.Orchestrator.Claims.{Claimed, same_id, take_up-Claimed}

Accounts-world_of :
    (ports : Ports) (run : PipelineRun) (stage : PipelineStage) (pre_existing : Option StageRun)
    (w : World) (e : Ended)
    → Accounts ports run stage pre_existing w e
    → IsOpen w (world_of e) ⊎ IsEnded run.id w (world_of e)
Accounts-world_of ports run stage pre_existing w (finished w') (inl h) = inr h
Accounts-world_of ports run stage pre_existing w (finished w') (inr h) = inl h.0
Accounts-world_of ports run stage pre_existing w (failed w') h = h
Accounts-world_of ports run stage pre_existing w (unfinished w') h = inl h

-- Adding an id that is not there and deleting it leaves the list.
deleted :
    (run_id : ℕ) (ids : List ℕ)
    → is_in_flight run_id ids ≡ false
    → filter (λ id. not (id == run_id)) ids ≡ ids
unfolding any filter
deleted run_id [] h = refl
deleted run_id (id ∷ ids) h = elim (Bool-cases (id == run_id)) [
  | inl e ↦ let wrong : true ≡ false = rw e at h in absurd (cc)
  | inr e ↦ rw e (ap (λ l. id ∷ l) (deleted run_id ids (rw e at h)))
]

added_deleted :
    (run_id : ℕ) (ids : List ℕ)
    → is_in_flight run_id ids ≡ false
    → filter (λ id. not (id == run_id)) (run_id ∷ ids) ≡ ids
unfolding filter
added_deleted run_id ids h = rw (==_refl run_id) (deleted run_id ids h)

module _ (ports : Ports) (max_concurrent fuel run_id : ℕ) where
  launch_taken-ends :
      (w : World) (x : Option Launch × Db)
      → Claimed max_concurrent run_id w.db x
      → IsOpen w (world_of (launch_taken ports max_concurrent fuel x.0 (record w { db = x.1 })))
        ⊎ IsEnded run_id w
            (world_of (launch_taken ports max_concurrent fuel x.0 (record w { db = x.1 })))
  launch_taken-ends w (none, db) h = inl refl
  launch_taken-ends w (some l, db) h =
      let start = record w { db = db } in
      let e = launch_stage fuel ports l.run l.stage l.pre_existing start in
      let ends =
        Accounts-world_of ports l.run l.stage l.pre_existing start e
          (launch_stage-ends_once ports l.run fuel l.stage l.pre_existing start) in
      subst (λ i. IsOpen w (world_of e) ⊎ IsEnded i w (world_of e)) (same_id run_id w.db l.run h.0)
        ends

  -- A call of `handleNewRun`, which enters its run in `inFlight`, leaves `inFlight` as it was, whether or not an
  -- exception leaves the call, and ends no run but its own, and that one at
  -- most once; a call for a run that is in flight does nothing.
  pub handle_new_run-ends :
      (d : Daemon)
      → AreUnique d.world.db.runs
      → ((handle_new_run ports max_concurrent fuel run_id d).1.in_flight ≡ d.in_flight)
        × (((is_in_flight run_id d.in_flight ≡ true)
              × (handle_new_run ports max_concurrent fuel run_id d ≡ (false, d)))
            ⊎ ((is_in_flight run_id d.in_flight ≡ false)
                × (IsOpen d.world (handle_new_run ports max_concurrent fuel run_id d).1.world
                    ⊎ IsEnded run_id d.world
                        (handle_new_run ports max_concurrent fuel run_id d).1.world)))
  unfolding handle_new_run
  handle_new_run-ends d unique = elim (Bool-cases (is_in_flight run_id d.in_flight)) [
    | inl e ↦ rw e (refl, inl (refl, refl))
    | inr e ↦ rw e (
      added_deleted run_id d.in_flight e,
      inr (
        refl,
        launch_taken-ends d.world (take_up max_concurrent run_id d.world.db)
            (take_up-Claimed max_concurrent run_id d.world.db unique),
      ),
    )
  ]
