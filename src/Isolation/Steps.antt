-- ===== src/Isolation/Steps.antt =====
-- src/adapters/git/worktree-isolation-provider.ts: what the steps of an acquisition keep, and leave.
use fluxaos.Prelude.{
  ℕ, ◌≡◌, refl, sym, ◌∙◌, ap, subst, Bool, true, String, Option, some, List, find, find-update,
  find-All, update_where, All, ==_refl, if◌then◌else◌, Result, ok, err,
}
use fluxaos.Prelude.Actions.{
  Action, continue_with, throw, ◌>>=◌, done, settled, >>=-returns, throw-never,
}
use fluxaos.Store.{Db}
use fluxaos.Isolation.Ports.{Environment, env_has_id, is_active_for, Host}
use fluxaos.Isolation.Provider.{
  row_returned, on_disk, find_active, set_artifacts, write_artifacts_path,
}

-- The primary key: an id finds its own row.
abbrev pub HasUniqueIds : List Environment → Type 0
HasUniqueIds envs = All (λ (e : Environment). find (env_has_id e.id) envs ≡ some e) envs

if_true {ℓ} : {A : Type ℓ} (b : Bool) (x y : A) → b ≡ true → (if b then x else y) ≡ x
if_true b x y e = rw e refl

-- Nothing but the disk is touched.
pub record Keeps {D A : Type 0} (action : Action (Host D) A) : Type 0 where
  pub keeps : (h : Host D) → ((action h).1.db ≡ h.db) × ((action h).1.envs ≡ h.envs)

-- Where the action returns an environment, it is the run's active one from then on.
pub record Leaves {D : Type 0} (project_id run_id : ℕ) (before : Option Environment)
    (action : Action (Host D) Environment) : Type 0 where
  pub leaves :
      (h h' : Host D) (env : Environment)
      → HasUniqueIds h.envs
      → find_active project_id run_id h ≡ before
      → action h ≡ (ok env, h')
      → (h'.db.config ≡ h.db.config) × (find_active project_id run_id h' ≡ some env)

pub record Throws {S A : Type 0} (action : Action S A) : Type 0 where
  pub throws : (s s' : S) (a : A) → action s ≡ (ok a, s') → ⊥

pub throw-Throws : {S A : Type 0} (text : String) → Throws {S = S} {A = A} (throw text)
throw-Throws text = record { throws = throw-never text }

pub Throws-bind :
    {S A B : Type 0} (action : Action S A) (later : A → Action S B)
    → ((a : A) → Throws (later a))
    → Throws (action >>= later)
Throws-bind action later l = record {
  throws = λ s s' b e.
      let (a, t, first, rest) = >>=-returns action later s s' b e in (l a).throws t s' b rest;
}

module _ {D : Type 0} where
  pub Keeps-bind :
      {A B : Type 0} (action : Action (Host D) A) (later : A → Action (Host D) B)
      → Keeps action
      → ((a : A) → Keeps (later a))
      → Keeps (action >>= later)
  Keeps-bind {A = A} action later k l = record { keeps = λ h. go h (action h) (k.keeps h) }
    where
      go :
          (h : Host D) (r : Result String A × Host D)
          → (r.1.db ≡ h.db) × (r.1.envs ≡ h.envs)
          → ((continue_with r later).1.db ≡ h.db) × ((continue_with r later).1.envs ≡ h.envs)
      go h (err text, t) same = same
      go h (ok a, t) (same_db, same_envs) =
          (((l a).keeps t).0 ∙ same_db, ((l a).keeps t).1 ∙ same_envs)

  pub on_disk-Keeps : {A : Type 0} (action : Action D A) → Keeps (on_disk action)
  on_disk-Keeps action = record { keeps = λ h. (refl, refl) }

  pub Leaves-bind :
      {A : Type 0} (project_id run_id : ℕ) (before : Option Environment)
      (action : Action (Host D) A) (later : A → Action (Host D) Environment)
      → Keeps action
      → ((a : A) → Leaves project_id run_id before (later a))
      → Leaves project_id run_id before (action >>= later)
  Leaves-bind {A = A} project_id run_id before action later kept left = record {
    leaves = λ h h' env unique found e.
        let (a, t, first, rest) = >>=-returns action later h h' env e in
        let (same_db, same_envs) =
          subst (λ (r : Result String A × Host D). (r.1.db ≡ h.db) × (r.1.envs ≡ h.envs)) first
            (kept.keeps h) in
        let (config, after) =
          (left a).leaves t h' env (subst HasUniqueIds (sym same_envs) unique)
            (ap (find (is_active_for project_id run_id)) same_envs ∙ found) rest in
        (config ∙ ap (λ (d : Db). d.config) same_db, after);
  }

  pub done-Keeps : {A : Type 0} (a : A) → Keeps {D = D} (done a)
  done-Keeps a = record { keeps = λ h. (refl, refl) }

  pub settled-Keeps : {A : Type 0} (r : Result String A) → Keeps {D = D} (settled r)
  settled-Keeps r = record { keeps = λ h. (refl, refl) }

  pub write-Leaves :
      (project_id run_id : ℕ) (existing : Environment) (path : String)
      → Leaves {D = D} project_id run_id (some existing) (write_artifacts_path existing.id path)
  unfolding write_artifacts_path
  write-Leaves project_id run_id existing path = record {
    leaves = λ h h' env unique found e.
        let write : Environment → Environment = set_artifacts h.db.now path in
        let mine : env_has_id existing.id existing ≡ true = ==_refl existing.id in
        let by_id =
          find-All (λ (x : Environment). find (env_has_id x.id) h.envs ≡ some x)
            (is_active_for project_id run_id) h.envs existing unique found in
        let row : find (env_has_id existing.id) (update_where (env_has_id existing.id) write h.envs)
            ≡ some (write existing) =
          find-update (env_has_id existing.id) (env_has_id existing.id) write h.envs existing
            (λ x. refl) by_id
          ∙ ap some (if_true _ _ _ mine) in
        let active : find (is_active_for project_id run_id)
              (update_where (env_has_id existing.id) write h.envs)
            ≡ some (write existing) =
          find-update (is_active_for project_id run_id) (env_has_id existing.id) write h.envs
            existing (λ x. refl) found
          ∙ ap some (if_true _ _ _ mine) in
        let answer : ok (write existing) ≡ ok env =
          sym (ap row_returned row) ∙ ap (λ (r : Result String Environment × Host D). r.0) e in
        let same : write existing ≡ env = cc in
        let left = ap (λ (r : Result String Environment × Host D). r.1) e in
        (
          ap (λ (x : Host D). x.db.config) (sym left),
          ap (find_active project_id run_id) (sym left) ∙ active ∙ ap some same,
        );
  }
