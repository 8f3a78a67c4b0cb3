-- ===== src/Deploy/Kept.antt =====
-- src/core/deploy/deploy-bridge.ts: actions that write the record of a deploy, and actions that do not.
use fluxaos.Prelude.{
  ℕ, ◌≡◌, refl, sym, ap, ◌∙◌, subst, String, Bool, true, false, List, [], ◌∷◌, ◌++◌, any, Result,
  ok, err,
}
use fluxaos.Prelude.Actions.{Action, ◌>>=◌, continue_with, catch, throw, Preserves, >>=-returns}
use fluxaos.Isolation.Ports.{DeployRow, Host, PathPorts, DiskPorts}
use fluxaos.Isolation.Provider.{on_disk, release}
use fluxaos.Deploy.Bridge.{
  is_deploy_of, insert_checked, all_or_nothing, insert_deploy, transaction, wrapped,
}
use fluxaos.Isolation.Released

abbrev pub deploys_of : {D : Type 0} → Host D → List DeployRow
deploys_of h = h.deploys

deploys-blind :
    {D : Type 0} (h : Host D) (disk : D) → deploys_of (record h { disk = disk }) ≡ deploys_of h
deploys-blind h disk = refl

module _ {D : Type 0} where
  pub on_disk-Preserves : {A : Type 0} (action : Action D A) → Preserves deploys_of (on_disk action)
  on_disk-Preserves = Released.on_disk-Preserves deploys_of deploys-blind

  pub release-Preserves :
      (paths : PathPorts) (disk : DiskPorts D) (id : ℕ) (force : Bool)
      → Preserves deploys_of (release paths disk id force)
  release-Preserves paths disk id force =
      Released.release-Preserves deploys_of deploys-blind paths disk id force
        (λ row same. record { preserved = λ h. refl })

  -- What an action that has written the record of a run leaves.
  abbrev pub IsRecorded : ℕ → Host D → Host D → Type 0
  IsRecorded run_id h h' =
      (any (is_deploy_of run_id) h.deploys ≡ false)
      × (row : DeployRow) × (row.pipeline_run_id ≡ run_id)
      × (h'.deploys ≡ h.deploys ++ row ∷ [])

  abbrev pub Ended : {A : Type 0} → ℕ → Host D → Result String A × Host D → Type 0
  Ended run_id h (err text, h') = h'.deploys ≡ h.deploys
  Ended run_id h (ok a, h') = IsRecorded run_id h h'

-- The action records the run where it returns, and nothing where it throws.
pub record Records {D A : Type 0} (run_id : ℕ) (action : Action (Host D) A) : Type 0 where
  pub records : (h : Host D) → Ended run_id h (action h)

-- The same where it returns.
pub record Inserts {D A : Type 0} (run_id : ℕ) (action : Action (Host D) A) : Type 0 where
  pub inserts : (h h' : Host D) (a : A) → action h ≡ (ok a, h') → IsRecorded run_id h h'

module _ {D : Type 0} (run_id : ℕ) where
  moved_on :
      (h t h' : Host D) → t.deploys ≡ h.deploys → IsRecorded run_id t h' → IsRecorded run_id h h'
  moved_on h t h' same (fresh, row, mine, added) = (
    ap (any (is_deploy_of run_id)) (sym same) ∙ fresh,
    row,
    mine,
    added ∙ ap (λ rows. rows ++ row ∷ []) same,
  )

  pub after-Records :
      {A B : Type 0} (action : Action (Host D) A) (later : A → Action (Host D) B)
      → Preserves deploys_of action
      → ((a : A) → Records run_id (later a))
      → Records run_id (action >>= later)
  after-Records {A = A} {B = B} action later kept l = record {
    records = λ h. go h (action h) (kept.preserved h);
  }
    where
      ended :
          (h t : Host D) (r : Result String B × Host D)
          → t.deploys ≡ h.deploys
          → Ended run_id t r
          → Ended run_id h r
      ended h t (err text, h') same e = e ∙ same
      ended h t (ok b, h') same e = moved_on h t h' same e

      go :
          (h : Host D) (r : Result String A × Host D)
          → r.1.deploys ≡ h.deploys
          → Ended run_id h (continue_with r later)
      go h (err text, t) same = same
      go h (ok a, t) same = ended h t (later a t) same ((l a).records t)

  pub before-Inserts :
      {A B : Type 0} (action : Action (Host D) A) (later : A → Action (Host D) B)
      → Preserves deploys_of action
      → ((a : A) → Inserts run_id (later a))
      → Inserts run_id (action >>= later)
  before-Inserts {A = A} action later kept l = record {
    inserts = λ h h' b e.
        let (a, t, first, rest) = >>=-returns action later h h' b e in
        let same =
          ap (λ (r : Result String A × Host D). r.1.deploys) (sym first) ∙ kept.preserved h in
        moved_on h t h' same ((l a).inserts t h' b rest);
  }

  pub then-Inserts :
      {A B : Type 0} (action : Action (Host D) A) (later : A → Action (Host D) B)
      → Inserts run_id action
      → ((a : A) → Preserves deploys_of (later a))
      → Inserts run_id (action >>= later)
  then-Inserts {B = B} action later inserting l = record {
    inserts = λ h h' b e.
        let (a, t, first, rest) = >>=-returns action later h h' b e in
        let same : h'.deploys ≡ t.deploys =
          ap (λ (r : Result String B × Host D). r.1.deploys) (sym rest) ∙ (l a).preserved t in
        let (fresh, row, mine, added) = inserting.inserts h t a first in
        (fresh, row, mine, same ∙ added);
  }

  pub transaction-Records :
      {A : Type 0} (action : Action (Host D) A)
      → Inserts run_id action
      → Records run_id (transaction action)
  transaction-Records {A = A} action inserting = record { records = λ h. go h (action h) refl }
    where
      go :
          (h : Host D) (r : Result String A × Host D)
          → action h ≡ r
          → Ended run_id h (all_or_nothing h r)
      go h (err text, t) e = refl
      go h (ok a, t) e = inserting.inserts h t a e

  pub wrapped-Records :
      {A : Type 0} (stage : String) (action : Action (Host D) A)
      → Records run_id action
      → Records run_id (wrapped stage action)
  wrapped-Records {A = A} stage action recording = record {
    records = λ h. go h (action h) (recording.records h);
  }
    where
      go :
          (h : Host D) (r : Result String A × Host D)
          → Ended run_id h r
          → Ended run_id h (catch (λ (x : Host D). r) (λ text. throw stage) h)
      go h (err text, t) e = e
      go h (ok a, t) e = e

  -- What follows a record and neither throws nor writes another.
  pub then-Records :
      {A B : Type 0} (action : Action (Host D) A) (later : A → Host D → Host D) (value : A → B)
      → Records run_id action
      → ((a : A) (h : Host D) → (later a h).deploys ≡ h.deploys)
      → Records run_id (action >>= λ a h. (ok (value a), later a h))
  then-Records {A = A} {B = B} action later value recording quiet = record {
    records = λ h. go h (action h) (recording.records h);
  }
    where
      go :
          (h : Host D) (r : Result String A × Host D)
          → Ended run_id h r
          → Ended run_id h (continue_with r (λ a t. (ok (value a), later a t)))
      go h (err text, t) e = e
      go h (ok a, t) (fresh, row, mine, added) = (fresh, row, mine, quiet a t ∙ added)

  pub insert-Records :
      (row : ℕ → DeployRow)
      → ((id : ℕ) → (row id).pipeline_run_id ≡ run_id)
      → Records run_id (insert_deploy {D = D} run_id row)
  unfolding insert_deploy
  insert-Records row mine = record {
    records = λ h. go h (any (is_deploy_of run_id) h.deploys) refl;
  }
    where
      go :
          (h : Host D) (b : Bool)
          → any (is_deploy_of run_id) h.deploys ≡ b
          → Ended run_id h (insert_checked b row h)
      go h true e = refl
      go h false e = (e, row h.db.next_id, mine h.db.next_id, refl)

  pub Records-Inserts :
      {A : Type 0} (action : Action (Host D) A) → Records run_id action → Inserts run_id action
  Records-Inserts action recording = record {
    inserts = λ h h' a e. subst (Ended run_id h) e (recording.records h);
  }
