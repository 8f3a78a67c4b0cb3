-- ===== src/Issues/Versions.antt =====
-- src/core/services/issue.ts: the version of an issue as an optimistic lock.
use fluxaos.Prelude.{
  ℕ, suc, ◌≤◌, ◌<◌, ◌≡◌, refl, ap, String, Bool, false, ◌&&◌, Option, none, some, List, [], ◌∷◌,
  arith, find, count, All, update_where, ◌==◌, ==_refl, Bool-cases, inl, inr, ok, err, >>=-eq-ok,
}
use fluxaos.Store.{Issue, IssueState, Actor, Db, issue_has_id}
use fluxaos.Issues.Lookup.{IssueError, or_throw, find_state}
use fluxaos.Issues.Writes.{
  has_version, assert_version, update_version, record_event, move, close_by,
  maybe_auto_close_parent,
}
use fluxaos.Issues.Levels.{auto_close_levels-relates}
use fluxaos.Issues.Service.{move_issue, transition, update_status, set_status}
use fluxaos.Issues.Moves.{move_issue-ok, moved}

-- The primary key.
abbrev pub AreUnique : List Issue → Type 0
AreUnique rows = (id : ℕ) → count (issue_has_id id) rows ≤ 1

-- Every row of the issue is newer than a version.
abbrev pub IsNewer : ℕ → ℕ → List Issue → Type 0
IsNewer id version rows = All (λ (r : Issue). r.id ≡ id → version < r.version) rows

IsNewer-other :
    (id version : ℕ) (rows : List Issue)
    → count (issue_has_id id) rows ≡ 0
    → IsNewer id version rows
unfolding count
IsNewer-other id version [] h = tt
IsNewer-other id version (r ∷ rows) h =
    (λ same. absurd (ground (arith)), IsNewer-other id version rows (ground arith))

update_other :
    (id version : ℕ) (f : Issue → Issue) (rows : List Issue)
    → count (issue_has_id id) rows ≡ 0
    → IsNewer id version (update_where (has_version id version) f rows)
unfolding count update_where
update_other id version f [] h = tt
update_other id version f (r ∷ rows) h =
    (λ same. absurd (ground arith), update_other id version f rows (ground arith))

find_version-count :
    (id version : ℕ) (rows : List Issue) (old : Issue)
    → find (has_version id version) rows ≡ some old
    → 1 ≤ count (issue_has_id id) rows
unfolding count find
find_version-count id version [] old h = absurd (cc)
find_version-count id version (r ∷ rows) old h =
    ground (arith, find_version-count id version rows old)

-- The guarded write of a version leaves only newer rows of that issue.
update-IsNewer :
    (id version : ℕ) (f : Issue → Issue) (rows : List Issue) (old : Issue)
    → ((r : Issue) → ((f r).id ≡ r.id) × ((f r).version ≡ suc version))
    → count (issue_has_id id) rows ≤ 1
    → find (has_version id version) rows ≡ some old
    → IsNewer id version (update_where (has_version id version) f rows)
unfolding count update_where find
update-IsNewer id version f [] old h u found = tt
update-IsNewer id version f (r ∷ rows) old h u found =
    elim (Bool-cases (has_version id version r)) [
      | inl e ↦ rw e (λ same. ground (arith, h r), update_other id version f rows (ground arith))
      | inr e ↦
          let later : find (has_version id version) rows ≡ some old = rw e at found in
          rw e (
            λ same. absurd (ground (arith, find_version-count id version rows old later)),
            update-IsNewer id version f rows old h (ground arith) later,
          )
    ]

close-IsNewer :
    (id version : ℕ) (terminal : IssueState) (parent : Issue) (now : ℕ) (rows : List Issue)
    → IsNewer id version rows
    → IsNewer id version (
        update_where
          (has_version parent.id parent.version)
          (close_by terminal parent.version now)
          rows)
unfolding update_where
close-IsNewer id version terminal parent now [] h = tt
close-IsNewer id version terminal parent now (r ∷ rows) h =
    (let newer = h.0 in λ same. ground arith, close-IsNewer id version terminal parent now rows h.1)

auto_close-IsNewer :
    (id version child_id : ℕ) (db : Db)
    → IsNewer id version db.issues
    → IsNewer id version (maybe_auto_close_parent child_id db).issues
unfolding maybe_auto_close_parent record_event
auto_close-IsNewer id version child_id db =
    auto_close_levels-relates (λ a b. IsNewer id version a.issues → IsNewer id version b.issues)
      (λ a h. h) (λ a b c f g h. g (f h))
      (λ child terminal parent a found is_open at.
        close-IsNewer id version terminal parent a.now a.issues)
      51 child_id db

newer_none :
    (id version : ℕ) (rows : List Issue)
    → IsNewer id version rows
    → find (has_version id version) rows ≡ none
unfolding find
newer_none id version [] h = refl
newer_none id version (r ∷ rows) h =
    let newer = h.0 in ground (arith, newer_none id version rows h.1)

move_issue-IsNewer :
    (override : Bool) (id to_state_id version : ℕ) (user : Option String) (current : Issue)
    (seen db : Db) (row : Issue) (after : Db)
    → AreUnique db.issues
    → move_issue override id to_state_id version user current seen db ≡ ok (row, after)
    → IsNewer id version after.issues
unfolding record_event
move_issue-IsNewer override id to_state_id version user current seen db row after unique h =
    let (target, old, same, at, found, is_row, is_db) =
      move_issue-ok override id to_state_id version user current seen db row after h in
    let newer =
      update-IsNewer id version (move target version db.now) db.issues old (λ r. (refl, refl))
        (unique id) found in
    elim (Bool-cases target.is_terminal) [
      | inl c ↦ rw is_db (
          rw c (
            auto_close-IsNewer id version id
              (moved override id to_state_id version user current seen db target) newer))
      | inr c ↦ rw is_db (rw c newer)
    ]

-- Nothing of a version that is gone can be written.
update_version_gone :
    (id version : ℕ) (change : Issue → Issue) (db : Db)
    → IsNewer id version db.issues
    → update_version id version change db ≡ none
unfolding update_version
update_version_gone id version change db h = rw (newer_none id version db.issues h)

move_issue_gone :
    (override : Bool) (id to_state_id version : ℕ) (user : Option String) (current : Issue)
    (seen db : Db) (target : IssueState)
    → IsNewer id version db.issues
    → current.version ≡ version
    → find_state to_state_id seen ≡ some target
    → move_issue override id to_state_id version user current seen db
      ≡ err IssueError.version_conflict
unfolding move_issue assert_version
move_issue_gone override id to_state_id version user current seen db target newer same at =
    rw
      (
        same,
        ==_refl version,
        at,
        update_version_gone id version (move target version db.now) db newer,
      )
      refl

-- Two clients that have read the same version of an issue: once the transition of the first has
-- succeeded, its row has the next version, and the transition of the second, to any state that exists,
-- and a status update of the second both fail with a version conflict.
pub transition-lock :
    (id to_state_id version project_id : ℕ) (user : Option String) (seen db : Db) (row : Issue)
    (after : Db) (other_state_id : ℕ) (target : IssueState) (other_user : Option String)
    (status_id : ℕ) (actor : Actor) (reason : Option String)
    → AreUnique db.issues
    → transition id to_state_id version project_id user seen db ≡ ok (row, after)
    → find_state other_state_id seen ≡ some target
    → (row.version ≡ suc version)
      × (transition id other_state_id version project_id other_user seen after
          ≡ err IssueError.version_conflict)
      × (update_status id status_id actor version reason after ≡ err IssueError.version_conflict)
unfolding transition update_status
transition-lock id to_state_id version project_id user seen db row after other target' user'
      status_id actor reason unique h at' =
    let find_it = λ (i : Issue). i.id == id && i.project_id == project_id in
    let (current, read, moved) =
      >>=-eq-ok (or_throw (find find_it seen.issues) IssueError.issue_not_found)
        (λ c. move_issue false id to_state_id version user c seen db) h in
    let (target, old, same, at, found, is_row, is_db) =
      move_issue-ok false id to_state_id version user current seen db row after moved in
    let newer =
      move_issue-IsNewer false id to_state_id version user current seen db row after unique moved in
    (
      ap (λ (r : Issue). r.version) is_row,
      rw read
          (move_issue_gone false id other version user' current seen after target' newer same at'),
      rw (update_version_gone id version (set_status status_id version after.now) after newer) refl,
    )
