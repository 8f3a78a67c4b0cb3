-- ===== src/Runs/Refinement.antt =====
-- src/core/orchestrator/pipeline-run-service.ts: every interleaving of the writes to runs is a run of the limiter.
use fluxaos.Prelude.{
  ℕ, lt→ltb, ltb→lt, ◌+◌, ◌-◌, ◌≤◌, ◌<◌, ◌≡◌, refl, sym, ap, subst, ◌∙◌, arith, Bool, true, false,
  ◌==◌, ==_iff, ltb, Option, none, some, List, [], ◌∷◌, ◌++◌, find, count, update_where, Bool-cases,
  Option-cases, inl, inr, if◌then◌else◌, find-update, find-none-update, find-passes, count-append,
}
use mathlib.Core.Path.{fun_ext}
use fluxaos.Store.{PipelineRunStatus, is_run_running, PipelineRun, Db, run_has_id}
use fluxaos.Runs.Service.{
  create_run, get_run, get_running_runs, has_running_status, claims, start_run,
  try_acquire_running_slot,
}
use fluxaos.Runs.Limit.{count_running-same}
use fluxaos.Runs.Slots.{
  AreUnique, claims_of, try_acquire_running_slot_iff, try_acquire_running_slot-effect,
  update_where_none,
}
use fluxaos.Runs.Limiter.{Limiter, set, held, over, enter, started_at, grant, acquire, leave}

abbrev pub status_of : Option PipelineRun → Option PipelineRunStatus
status_of none = none
status_of (some r) = some r.status

abbrev pub statuses : List PipelineRun → ℕ → Option PipelineRunStatus
statuses rs id = status_of (find (run_has_id id) rs)

-- What the limiter sees of the store.
unfoldable pub view : Db → Limiter
unfolding get_running_runs
view db = record { statuses = statuses db.runs; in_use = get_running_runs db }

-- A write of the row `id`.
module _ (id : ℕ) (status : PipelineRunStatus) (p : PipelineRun → Bool)
    (f : PipelineRun → PipelineRun) (rs : List PipelineRun)
    (same : (r : PipelineRun) → (f r).id ≡ r.id)
    (writes : (r : PipelineRun) → (f r).status ≡ status)
    (hits : (r : PipelineRun) → find (run_has_id id) rs ≡ some r → p r ≡ true)
    (only : (r : PipelineRun) → p r ≡ true → (r.id == id) ≡ true) where
  missing-update :
      (i : ℕ)
      → find (run_has_id i) rs ≡ none
      → statuses (update_where p f rs) i ≡ set (statuses rs) id (over status (statuses rs id)) i
  missing-update i e = elim (Bool-cases (i == id)) [
    | inl t ↦
        let at_id : statuses rs id ≡ none =
          subst (λ k. statuses rs k ≡ none) ((==_iff i id).0 t) (ap status_of e) in
        ap status_of after ∙ rw t (rw at_id refl)
    | inr t ↦ ap status_of after ∙ rw t (sym (ap status_of e))
  ]
    where
      after : find (run_has_id i) (update_where p f rs) ≡ none
      after = find-none-update (run_has_id i) p f rs (λ r. ap (λ k. k == i) (same r)) e

  found-update :
      (i : ℕ) (r : PipelineRun)
      → find (run_has_id i) rs ≡ some r
      → statuses (update_where p f rs) i ≡ set (statuses rs) id (over status (statuses rs id)) i
  found-update i r e = elim (Bool-cases (i == id)) [
    | inl t ↦
        let at_id : find (run_has_id id) rs ≡ some r =
          subst (λ k. find (run_has_id k) rs ≡ some r) ((==_iff i id).0 t) e in
        let there : statuses (update_where p f rs) i ≡ some status =
          ap status_of (rw (hits r at_id) at after) ∙ ap some (writes r) in
        let before : statuses rs id ≡ some r.status = ap status_of at_id in
        there ∙ rw t (rw before refl)
    | inr t ↦
        let passes : (r.id == i) ≡ true = find-passes (run_has_id i) rs r e in
        let misses : p r ≡ false = elim (Bool-cases (p r)) [
          | inl h ↦ let wrong = only r h in absurd (ground arith)
          | inr h ↦ h
        ] in
        ap status_of (rw misses at after) ∙ rw t (sym (ap status_of e))
  ]
    where
      after : find (run_has_id i) (update_where p f rs) ≡ some (if p r then f r else r)
      after = find-update (run_has_id i) p f rs r (λ r. ap (λ k. k == i) (same r)) e

  statuses-update :
      statuses (update_where p f rs) ≡ set (statuses rs) id (over status (statuses rs id))
  statuses-update = fun_ext λ i. elim (Option-cases (find (run_has_id i) rs)) [
    | inl e ↦ missing-update i e
    | inr (r, e) ↦ found-update i r e
  ]

held-running :
    (status : PipelineRunStatus) → held (some status) ≡ (if is_run_running status then 1 else 0)
held-running PipelineRunStatus.running = refl
held-running PipelineRunStatus.pending = refl
held-running PipelineRunStatus.completed = refl
held-running PipelineRunStatus.failed = refl
held-running PipelineRunStatus.cancelled = refl
held-running PipelineRunStatus.queued = refl
held-running PipelineRunStatus.timed_out = refl
held-running PipelineRunStatus.blocked = refl

-- The slot that the row `id` holds is given back.
in_use-update :
    (id : ℕ) (f : PipelineRun → PipelineRun) (rs : List PipelineRun)
    → ((r : PipelineRun) → is_run_running (f r).status ≡ false)
    → count (run_has_id id) rs ≤ 1
    → count has_running_status (update_where (run_has_id id) f rs) + held (statuses rs id)
      ≡ count has_running_status rs
unfolding count update_where find
in_use-update id f [] stops u = refl
in_use-update id f (r ∷ rs) stops u = elim (Bool-cases (r.id == id)) [
  | inl t ↦
      let alone : count (run_has_id id) rs ≡ 0 = ground (arith, t, u) in
      let rest = update_where_none (run_has_id id) f rs alone in
      rw t (rw (rest, stops r, held-running r.status) (ground arith))
  | inr t ↦
      let after = in_use-update id f rs stops (ground (arith, t, u)) in rw t (ground (arith, after))
]

-- A store whose rows of runs are changed by a write of the row `id`.
pub leave-refines :
    (id : ℕ) (status : PipelineRunStatus) (f : PipelineRun → PipelineRun) (db after : Db)
    → ((r : PipelineRun) → (f r).id ≡ r.id)
    → ((r : PipelineRun) → (f r).status ≡ status)
    → is_run_running status ≡ false
    → after.runs ≡ update_where (run_has_id id) f db.runs
    → count (run_has_id id) db.runs ≤ 1
    → view after ≡ leave id status (view db)
unfolding view get_running_runs
leave-refines id status f db after same writes stops runs unique =
    let rows =
      ap statuses runs
      ∙ statuses-update id status (run_has_id id) f db.runs same writes
          (λ r e. find-passes (run_has_id id) db.runs r e) (λ r h. h) in
    let given = in_use-update id f db.runs (λ r. ap is_run_running (writes r) ∙ stops) unique in
    let slots : count has_running_status after.runs
        ≡ count has_running_status db.runs - held (statuses db.runs id) =
      rw runs (omega (arith, given)) in
    λ i. record { statuses = rows i; in_use = slots i }

statuses-same :
    (p : PipelineRun → Bool) (f : PipelineRun → PipelineRun) (rs : List PipelineRun) (i : ℕ)
    → ((r : PipelineRun) → (f r).id ≡ r.id)
    → ((r : PipelineRun) → (f r).status ≡ r.status)
    → statuses (update_where p f rs) i ≡ statuses rs i
statuses-same p f rs i same kept = elim (Option-cases (find (run_has_id i) rs)) [
  | inl e ↦
      ap status_of (find-none-update (run_has_id i) p f rs (λ r. ap (λ k. k == i) (same r)) e)
      ∙ sym (ap status_of e)
  | inr (r, e) ↦
      let after = find-update (run_has_id i) p f rs r (λ q. ap (λ k. k == i) (same q)) e in
      ap status_of after ∙ either (p r) r ∙ sym (ap status_of e)
]
  where
    either : (b : Bool) (r : PipelineRun) → some (if b then f r else r).status ≡ some r.status
    either true r = ap some (kept r)
    either false r = refl

pub rewrite-refines :
    (id : ℕ) (f : PipelineRun → PipelineRun) (db : Db)
    → ((r : PipelineRun) → (f r).id ≡ r.id)
    → ((r : PipelineRun) → (f r).status ≡ r.status)
    → view (record db { runs = update_where (run_has_id id) f db.runs }) ≡ view db
unfolding view get_running_runs
rewrite-refines id f db same kept =
    let rows = fun_ext (λ i. statuses-same (run_has_id id) f db.runs i same kept) in
    let slots = count_running-same (run_has_id id) f db.runs kept in
    λ i. record { statuses = rows i; in_use = slots i }

statuses-append :
    (rs : List PipelineRun) (r : PipelineRun) (i : ℕ)
    → statuses rs r.id ≡ none
    → statuses (rs ++ r ∷ []) i ≡ set (statuses rs) r.id (some r.status) i
unfolding find
statuses-append [] r i fresh = elim (Bool-cases (i == r.id)) [
  | inl t ↦ let back : (r.id == i) ≡ true = ground (arith, t) in rw t (rw back refl)
  | inr t ↦ let back : (r.id == i) ≡ false = ground (arith, t) in rw t (rw back refl)
]
statuses-append (q ∷ rs) r i fresh = elim (Bool-cases (q.id == r.id)) [
  | inl t ↦ let wrong : some q.status ≡ none = rw t at fresh in absurd (cc)
  | inr apart ↦ elim (Bool-cases (q.id == i)) [
    | inl t ↦ let other : (i == r.id) ≡ false = ground (arith, t, apart) in rw t (rw other refl)
    | inr t ↦ rw t (statuses-append rs r i (rw apart at fresh))
  ]
]

pub create-refines :
    (pipeline_id issue_id : ℕ) (db : Db)
    → statuses db.runs db.next_id ≡ none
    → view (create_run pipeline_id issue_id db).1 ≡ enter db.next_id (view db)
unfolding view create_run get_running_runs count
create-refines pipeline_id issue_id db fresh =
    let row = (create_run pipeline_id issue_id db).0 in
    let rows = fun_ext (λ i. statuses-append db.runs row i fresh) in
    let slots : count has_running_status (db.runs ++ row ∷ []) ≡ count has_running_status db.runs =
      count-append has_running_status db.runs (row ∷ []) ∙ omega arith in
    λ i. record { statuses = rows i; in_use = slots i }

grant_refused :
    (limit id : ℕ) (v : Limiter) (o : Option PipelineRunStatus)
    → (o ≡ some PipelineRunStatus.pending → ltb v.in_use limit ≡ false)
    → grant limit id v o ≡ (false, v)
grant_refused limit id v none h = refl
grant_refused limit id v (some PipelineRunStatus.pending) h = rw (h refl) refl
grant_refused limit id v (some PipelineRunStatus.running) h = refl
grant_refused limit id v (some PipelineRunStatus.completed) h = refl
grant_refused limit id v (some PipelineRunStatus.failed) h = refl
grant_refused limit id v (some PipelineRunStatus.cancelled) h = refl
grant_refused limit id v (some PipelineRunStatus.queued) h = refl
grant_refused limit id v (some PipelineRunStatus.timed_out) h = refl
grant_refused limit id v (some PipelineRunStatus.blocked) h = refl

grant_given :
    (limit id : ℕ) (v : Limiter) (o : Option PipelineRunStatus)
    → o ≡ some PipelineRunStatus.pending
    → v.in_use < limit
    → grant limit id v o ≡ (true, started_at id v)
grant_given limit id v o pending free = rw pending (rw (lt→ltb v.in_use limit free) refl)

stored_pending :
    (id : ℕ) (rs : List PipelineRun)
    → statuses rs id ≡ some PipelineRunStatus.pending
    → (r : PipelineRun) × (find (run_has_id id) rs ≡ some r)
      × (r.status ≡ PipelineRunStatus.pending)
stored_pending id rs h = elim (Option-cases (find (run_has_id id) rs)) [
  | inl e ↦
      let wrong : none ≡ some PipelineRunStatus.pending = sym (ap status_of e) ∙ h in absurd (cc)
  | inr (r, e) ↦
      let same : some r.status ≡ some PipelineRunStatus.pending = sym (ap status_of e) ∙ h in
      (r, e, cc)
]

module _ (limit id : ℕ) (db : Db) (unique : AreUnique db.runs) where
  started-view :
      (r : PipelineRun)
      → find (run_has_id id) db.runs ≡ some r
      → r.status ≡ PipelineRunStatus.pending
      → get_running_runs db < limit
      → get_running_runs (try_acquire_running_slot id limit db).1 ≡ get_running_runs db + 1
      → view (try_acquire_running_slot id limit db).1 ≡ started_at id (view db)
  unfolding view try_acquire_running_slot get_running_runs
  started-view r found pending free more =
      let written =
        statuses-update id PipelineRunStatus.running (claims id limit db) (start_run db.now) db.runs
          (λ q. refl) (λ q. refl) hits claimed_is in
      let before : statuses db.runs id ≡ some PipelineRunStatus.pending =
        ap status_of found ∙ ap some pending in
      let rows =
        written ∙ ap (λ o. set (statuses db.runs) id (over PipelineRunStatus.running o)) before in
      λ i. record { statuses = rows i; in_use = more i }
    where
      claimed_is : (q : PipelineRun) → claims id limit db q ≡ true → (q.id == id) ≡ true
      claimed_is q h = ground (arith, h)

      hits : (q : PipelineRun) → find (run_has_id id) db.runs ≡ some q → claims id limit db q ≡ true
      hits q e =
          let same : some r ≡ some q = sym found ∙ e in
          let is_q : r ≡ q = cc in
          claims_of id limit db q (find-passes (run_has_id id) db.runs q e)
            (sym (ap (λ (x : PipelineRun). x.status) is_q) ∙ pending) free

  -- The write that claims a slot, with the count of the rows that it changes.
  pub acquire-refines :
      ((try_acquire_running_slot id limit db).0 ≡ (acquire limit id (view db)).0)
      × (view (try_acquire_running_slot id limit db).1 ≡ (acquire limit id (view db)).1)
  unfolding view
  acquire-refines = elim (try_acquire_running_slot-effect id limit db unique) [
    | inl (acquired, more, within) ↦
        let (r, found, pending, free) =
          (try_acquire_running_slot_iff id limit db unique).0 acquired in
        let row : find (run_has_id id) db.runs ≡ some r = unfold get_run in found in
        let is_pending : statuses db.runs id ≡ some PipelineRunStatus.pending =
          ap status_of row ∙ ap some pending in
        let slot : (view db).in_use < limit = unfold get_running_runs in free in
        let granted = grant_given limit id (view db) (statuses db.runs id) is_pending slot in
        (
          acquired ∙ sym (ap (λ g. g.0) granted),
          started-view r row pending free more ∙ sym (ap (λ g. g.1) granted),
        )
    | inr (refused, same) ↦
        let none_granted =
          grant_refused limit id (view db) (statuses db.runs id) (no_slot refused) in
        (
          refused ∙ sym (ap (λ g. g.0) none_granted),
          same_view same ∙ sym (ap (λ g. g.1) none_granted),
        )
  ]
    where
      same_view :
          (try_acquire_running_slot id limit db).1.runs ≡ db.runs
          → view (try_acquire_running_slot id limit db).1 ≡ view db
      same_view same =
          unfold get_running_runs in
          λ i. record { statuses = statuses (same i); in_use = count has_running_status (same i) }

      no_slot :
          (try_acquire_running_slot id limit db).0 ≡ false
          → statuses db.runs id ≡ some PipelineRunStatus.pending
          → ltb (view db).in_use limit ≡ false
      no_slot refused pending = elim (Bool-cases (ltb (view db).in_use limit)) [
        | inl free ↦
            let (r, found, is_pending) = stored_pending id db.runs pending in
            let slot : get_running_runs db < limit = unfold get_running_runs in ltb→lt _ _ free in
            let row : get_run id db ≡ some r = unfold get_run in found in
            let wrong =
              (try_acquire_running_slot_iff id limit db unique).1 (r, row, is_pending, slot) in
            absurd (cc)
        | inr full ↦ full
      ]
