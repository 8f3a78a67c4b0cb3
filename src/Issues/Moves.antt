-- ===== src/Issues/Moves.antt =====
-- src/core/services/issue.ts: what a successful `transition` or `stateOverride` did.
use fluxaos.Prelude.{
  ℕ, ◌≡◌, refl, ap, ◌∙◌, String, Bool, Option, none, some, arith, find, update_where, if◌then◌else◌,
  Result, ok, >>=-eq-ok,
}
use fluxaos.Store.{Issue, IssueState, IssueEventType, Payload, Db}
use fluxaos.Issues.Lookup.{IssueError, or_throw, find_state}
use fluxaos.Issues.Writes.{
  has_version, assert_version, update_version, record_event, move, written, maybe_auto_close_parent,
}
use fluxaos.Issues.Service.{actor_of, move_issue}

pub or_throw-ok {ℓ} :
    {A : Type ℓ} (o : Option A) (e : IssueError) (a : A) → or_throw o e ≡ ok a → o ≡ some a
or_throw-ok none e a h = absurd (cc)
or_throw-ok (some b) e a h = cc

assert_version-ok :
    (current : Issue) (version : ℕ) (u : Unit {0})
    → assert_version current version ≡ ok u
    → current.version ≡ version
unfolding assert_version
assert_version-ok current version u h = ground arith

update_version-some :
    (id version : ℕ) (change : Issue → Issue) (db : Db) (row : Issue) (after : Db)
    → update_version id version change db ≡ some (row, after)
    → (old : Issue) × (find (has_version id version) db.issues ≡ some old)
      × (row ≡ change old)
      × (after ≡ record db { issues = update_where (has_version id version) change db.issues })
unfolding update_version
update_version-some id version change db row after h =
    go (find (has_version id version) db.issues) refl h
  where
    go :
        (o : Option Issue)
        → find (has_version id version) db.issues ≡ o
        → written id version change db o ≡ some (row, after)
        → (old : Issue) × (find (has_version id version) db.issues ≡ some old)
          × (row ≡ change old)
          × (after ≡ record db { issues = update_where (has_version id version) change db.issues })
    go none e h = absurd (cc)
    go (some old) e h = (old, e, cc, cc)

pub ok_pair :
    (r r' : Issue) (d d' : Db)
    → (let result : Result IssueError (Issue × Db) = ok (r, d) in result) ≡ ok (r', d')
    → (r' ≡ r) × (d' ≡ d)
ok_pair r r' d d' h = (cc, cc)

module _ (override : Bool) (id to_state_id version : ℕ) (user : Option String) (current : Issue)
    (seen db : Db) where
  -- The store after the guarded write and its event, before any parent is closed.
  abbrev pub moved : IssueState → Db
  moved target =
      record_event id (actor_of user) IssueEventType.state_changed
        (Payload.state current.state_id to_state_id override none)
        (record db {
          issues = update_where (has_version id version) (move target version db.now) db.issues;
        })

  pub move_issue-ok :
      (row : Issue) (after : Db)
      → move_issue override id to_state_id version user current seen db ≡ ok (row, after)
      → (target : IssueState) × (old : Issue) × (current.version ≡ version)
        × (find_state to_state_id seen ≡ some target)
        × (find (has_version id version) db.issues ≡ some old)
        × (row ≡ move target version db.now old)
        × (after ≡ (
            if target.is_terminal then maybe_auto_close_parent id (moved target) else moved target))
  unfolding move_issue
  move_issue-ok row after h =
      let (u, same, h) = >>=-eq-ok _ _ h in
      let (target, at, h) = >>=-eq-ok _ _ h in
      let ((updated, db'), write, h) = >>=-eq-ok _ _ h in
      let (old, found, is_row, is_db) =
        update_version-some _ _ _ _ updated db' (or_throw-ok _ _ _ write) in
      let (same_row, same_db) = ok_pair _ _ _ _ h in
      (
        target,
        old,
        assert_version-ok current version u same,
        or_throw-ok _ _ _ at,
        found,
        same_row ∙ is_row,
        same_db
            ∙ ap
                (λ d.
                  let recorded =
                    record_event id (actor_of user) IssueEventType.state_changed
                      (Payload.state current.state_id to_state_id override none) d in
                  if target.is_terminal then maybe_auto_close_parent id recorded else recorded)
                is_db,
      )
