-- ===== src/Control/Guarded.antt =====
-- src/server/routers/pipeline.ts: who may change a run.
use fluxaos.Prelude.{
  or_true, find-Splits, Splits-cons, Splits, ◌>>=◌, ℕ, ◌≡◌, refl, ap, ◌∙◌, Bool, true, false, ◌==◌,
  ==_iff, and_true, any, Option, none, some, List, [], ◌∷◌, find-passes, Bool-cases, inl, inr, ◌⊎◌,
  Result, ok, err,
}
use fluxaos.Store.{Db}
use fluxaos.Executor.Finish.{resolve_project_id_for_run}
use fluxaos.Control.Access.{
  Members, RouterError, pair_is, is_member, team_row, granted_if, with_team, assert_project_access,
  get_project_id_for_stage_run, same_project, assert_run_ownership, assert_stage_run_ownership,
}
use fluxaos.Control.Mutations.{
  Signal, MutationResult, when_granted, cancel, cancel_stage, approve_stage, reject_stage,
  execute_stage,
}

-- The viewer is a member of the project or of its team; without a viewer the bypass is on.
abbrev pub MayAct : Members → ℕ → Option ℕ → Type 0
MayAct m project_id viewer =
    ((viewer ≡ none) × (m.bypass ≡ true))
    ⊎ ((v : ℕ) × (viewer ≡ some v)
        × (team : Option ℕ) × Splits m.teams (project_id, team)
        × (Splits m.project_members (project_id, v)
            ⊎ ((t : ℕ) × (team ≡ some t) × Splits m.team_members (t, v))))

any-Splits : (a b : ℕ) (xs : List (ℕ × ℕ)) → any (pair_is a b) xs ≡ true → Splits xs (a, b)
unfolding any
any-Splits a b [] h = absurd (cc)
any-Splits a b ((x, y) ∷ xs) h = elim (Bool-cases (pair_is a b (x, y))) [
  | inl t ↦
      let (first, second) = and_true (x == a) (y == b) t in
      let same : x ≡ a = (==_iff x a).0 first in
      let same_too : y ≡ b = (==_iff y b).0 second in
      ([], xs, ap (λ p. p ∷ xs) (λ i. (same i, same_too i)))
  | inr t ↦ Splits-cons (a, b) (x, y) xs (any-Splits a b xs (rw t at h))
]

granted_if-true : (b : Bool) → granted_if b ≡ ok tt → b ≡ true
granted_if-true true h = refl
granted_if-true false h = absurd (cc)

is_member-Splits :
    (m : Members) (project_id v : ℕ) (team : Option ℕ)
    → is_member m project_id team v ≡ true
    → Splits m.project_members (project_id, v)
      ⊎ ((t : ℕ) × (team ≡ some t) × Splits m.team_members (t, v))
is_member-Splits m project_id v none h =
    elim (or_true (any (pair_is project_id v) m.project_members) false h) [
      | inl e ↦ inl (any-Splits project_id v m.project_members e)
      | inr e ↦ absurd (cc)
    ]
is_member-Splits m project_id v (some t) h =
    elim (or_true (any (pair_is project_id v) m.project_members) (any (pair_is t v) m.team_members)
      h) [
        | inl e ↦ inl (any-Splits project_id v m.project_members e)
        | inr e ↦ inr (t, refl, any-Splits t v m.team_members e)
      ]

with_team-MayAct :
    (m : Members) (project_id v : ℕ) (o : Option (ℕ × Option ℕ))
    → team_row m project_id ≡ o
    → with_team m project_id v o ≡ ok tt
    → MayAct m project_id (some v)
with_team-MayAct m project_id v none e h = absurd (cc)
with_team-MayAct m project_id v (some (id, team)) e h =
    let passes : (id == project_id) ≡ true =
      find-passes (λ (p : ℕ × Option ℕ). p.0 == project_id) m.teams (id, team) e in
    let same : id ≡ project_id = (==_iff id project_id).0 passes in
    let row : team_row m project_id ≡ some (project_id, team) = e ∙ ap (λ i. some (i, team)) same in
    inr (
      v,
      refl,
      team,
      find-Splits (λ (p : ℕ × Option ℕ). p.0 == project_id) m.teams (project_id, team) row,
      is_member-Splits m project_id v team (granted_if-true (is_member m project_id team v) h),
    )

assert_project_access-MayAct :
    (m : Members) (project_id : ℕ) (viewer : Option ℕ)
    → assert_project_access m project_id viewer ≡ ok tt
    → MayAct m project_id viewer
unfolding assert_project_access
assert_project_access-MayAct m project_id none h = elim (Bool-cases m.bypass) [
  | inl t ↦ inl (refl, t)
  | inr t ↦ let wrong : err RouterError.unauthorized ≡ ok tt = rw t at h in absurd (cc)
]
assert_project_access-MayAct m project_id (some v) h =
    with_team-MayAct m project_id v (team_row m project_id) refl h

same_project-eq :
    (o : Option ℕ) (project_id : ℕ) → same_project o project_id ≡ true → o ≡ some project_id
same_project-eq none project_id h = absurd (cc)
same_project-eq (some p) project_id h = ap some ((==_iff p project_id).0 h)

-- The owning project is the declared one, and the viewer may act on it.
abbrev pub IsGranted : Members → Option ℕ → ℕ → Option ℕ → Type 0
IsGranted m owning project_id viewer = (owning ≡ some project_id) × MayAct m project_id viewer

owned-IsGranted :
    (m : Members) (owning : Option ℕ) (project_id : ℕ) (viewer : Option ℕ)
    → (granted_if (same_project owning project_id) >>= λ owned.
        assert_project_access m project_id viewer)
      ≡ ok tt
    → IsGranted m owning project_id viewer
owned-IsGranted m owning project_id viewer h = elim (Bool-cases (same_project owning project_id)) [
  | inl t ↦ (
    same_project-eq owning project_id t,
    assert_project_access-MayAct m project_id viewer (rw t at h),
  )
  | inr t ↦ let wrong : err RouterError.not_found ≡ ok tt = rw t at h in absurd (cc)
]

-- The mutation throws and leaves the store as it is.
abbrev pub IsRefused : MutationResult → Db → Type 0
IsRefused attempt db = (e : RouterError) × (attempt ≡ (err e, db))

when_granted-cases :
    (P : Type 0) (x : Result RouterError (Unit {0})) (mutation : Db → MutationResult) (db : Db)
    → (x ≡ ok tt → P)
    → IsRefused (when_granted x mutation db) db ⊎ P
when_granted-cases P (err e) mutation db h = inl (e, refl)
when_granted-cases P (ok tt) mutation db h = inr (h refl)

-- Each mutation of a run or a stage run throws and changes nothing, unless the run belongs to the declared
-- project, and the viewer is a member of the project or of its team, or there is no viewer and the bypass is on.
pub mutations-IsGranted :
    (kill : ℕ → Signal) (m : Members) (id project_id : ℕ) (viewer : Option ℕ) (abort : Bool)
    (db : Db)
    → (IsRefused (cancel kill m id project_id viewer db) db
        ⊎ IsGranted m (resolve_project_id_for_run id db) project_id viewer)
      × (IsRefused (cancel_stage kill m id project_id viewer db) db
          ⊎ IsGranted m (get_project_id_for_stage_run id db) project_id viewer)
      × (IsRefused (approve_stage kill m id project_id viewer db) db
          ⊎ IsGranted m (get_project_id_for_stage_run id db) project_id viewer)
      × (IsRefused (reject_stage kill m id project_id viewer abort db) db
          ⊎ IsGranted m (get_project_id_for_stage_run id db) project_id viewer)
      × (IsRefused (execute_stage kill m id project_id viewer db) db
          ⊎ IsGranted m (get_project_id_for_stage_run id db) project_id viewer)
unfolding cancel cancel_stage approve_stage reject_stage execute_stage
mutations-IsGranted kill m id project_id viewer abort db = (
  when_granted-cases _ _ _ db run,
  when_granted-cases _ _ _ db stage,
  when_granted-cases _ _ _ db stage,
  when_granted-cases _ _ _ db stage,
  when_granted-cases _ _ _ db stage,
)
  where
    run :
        assert_run_ownership m id project_id viewer db ≡ ok tt
        → IsGranted m (resolve_project_id_for_run id db) project_id viewer
    run h =
        owned-IsGranted m (resolve_project_id_for_run id db) project_id viewer
          (unfold assert_run_ownership in h)

    stage :
        assert_stage_run_ownership m id project_id viewer db ≡ ok tt
        → IsGranted m (get_project_id_for_stage_run id db) project_id viewer
    stage h =
        owned-IsGranted m (get_project_id_for_stage_run id db) project_id viewer
          (unfold assert_stage_run_ownership in h)
