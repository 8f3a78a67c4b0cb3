-- ===== src/Issues/Consistency.antt =====
-- src/core/services/issue.ts: `isClosed`, `closedAt` and the state of an issue say the same.
use fluxaos.Prelude.{
  All-update, ℕ, ◌≡◌, refl, ap, ◌∙◌, sym, subst, String, Bool, true, false, ◌&&◌, Option, none,
  some, List, [], ◌∷◌, arith, find, find-passes, filter-keeps, head?, sort_by-keeps, All,
  All-append, Bool-cases, inl, inr, ◌==◌, is_some, ok, >>=-eq-ok,
}
use fluxaos.Store.{Issue, IssueState, Db, state_has_id}
use fluxaos.Issues.Lookup.{
  IssueError, or_throw, is_candidate, find_issue, find_state, first_state, find_terminal_state,
}
use fluxaos.Issues.Writes.{has_version, record_event, move, close_by, maybe_auto_close_parent}
use fluxaos.Issues.Levels.{closed_parent, recorded, auto_close_levels-relates}
use fluxaos.Issues.Moves.{move_issue-ok, moved, or_throw-ok}
use fluxaos.Issues.Numbers.{first_state-candidate, create-ok}
use fluxaos.Issues.Service.{CreateIssueInput, move_issue, transition, state_override, create}

-- A stored state is what its id finds: the primary key.
abbrev pub AreKeyed : List IssueState → Type 0
AreKeyed states = All (λ (s : IssueState). find (state_has_id s.id) states ≡ some s) states

-- The issue is closed exactly when its state is terminal, and has a closing time exactly when it is
-- closed.
abbrev pub IsSettled : List IssueState → Issue → Type 0
IsSettled states r =
    (s : IssueState)
    → find (state_has_id r.state_id) states ≡ some s
    → (r.is_closed ≡ s.is_terminal) × (is_some r.closed_at ≡ r.is_closed)

abbrev pub AreSettled : Db → Type 0
AreSettled db = All (IsSettled db.states) db.issues

IsSettled-by :
    (states : List IssueState) (target : IssueState) (r : Issue)
    → find (state_has_id target.id) states ≡ some target
    → r.state_id ≡ target.id
    → r.is_closed ≡ target.is_terminal
    → is_some r.closed_at ≡ target.is_terminal
    → IsSettled states r
IsSettled-by states target r found at closed closing s is_s =
    let same : some s ≡ some target =
      sym is_s ∙ ap (λ i. find (state_has_id i) states) at ∙ found in
    let terminal = ap (λ o. elim o [ none ↦ false | some x ↦ x.is_terminal ]) same in
    (closed ∙ sym terminal, closing ∙ sym closed)

-- The state that `first_state` gives is stored under its id.
first_state-found :
    (project_id : ℕ) (terminal : Bool) (db : Db) (s : IssueState)
    → AreKeyed db.states
    → first_state project_id terminal db ≡ some s
    → find (state_has_id s.id) db.states ≡ some s
unfolding first_state
first_state-found project_id terminal db s keyed h =
    go _
      (sort_by-keeps (λ (x : IssueState). x.sort_order)
        (λ x. find (state_has_id x.id) db.states ≡ some x) _
        (filter-keeps _ (is_candidate project_id terminal) db.states keyed))
      h
  where
    go :
        (xs : List IssueState)
        → All (λ x. find (state_has_id x.id) db.states ≡ some x) xs
        → head? xs ≡ some s
        → find (state_has_id s.id) db.states ≡ some s
    go [] all e = absurd (cc)
    go (x ∷ xs) all e =
        let same : x ≡ s = cc in subst (λ y. find (state_has_id y.id) db.states ≡ some y) same all.0

abbrev Keeps : Db → Db → Type 0
Keeps db after =
    (after.states ≡ db.states) × (AreKeyed db.states → AreSettled db → AreSettled after)

Keeps-trans : (a b c : Db) → Keeps a b → Keeps b c → Keeps a c
Keeps-trans a b c h k =
    (k.0 ∙ h.0, λ keyed all. k.1 (subst AreKeyed (sym h.0) keyed) (h.1 keyed all))

close-Keeps :
    (child_id : ℕ) (terminal : IssueState) (parent : Issue) (db : Db)
    → find_terminal_state parent.project_id db ≡ ok terminal
    → Keeps db (recorded child_id parent terminal (closed_parent terminal parent db.now db))
unfolding record_event find_terminal_state
close-Keeps child_id terminal parent db at = (
  refl,
  λ keyed all.
      let first = or_throw-ok (first_state parent.project_id true db) _ terminal at in
      let found = first_state-found parent.project_id true db terminal keyed first in
      let candidate = first_state-candidate parent.project_id true db terminal first in
      let is_terminal : terminal.is_terminal ≡ true = ground arith in
      All-update (IsSettled db.states) (IsSettled db.states) (has_version parent.id parent.version)
        (close_by terminal parent.version db.now) db.issues
        (λ r h closes.
          IsSettled-by db.states terminal (close_by terminal parent.version db.now r) found refl
            (sym is_terminal) (sym is_terminal))
        (λ r h kept. h) all,
)

auto_close-Keeps : (child_id : ℕ) (db : Db) → Keeps db (maybe_auto_close_parent child_id db)
unfolding maybe_auto_close_parent
auto_close-Keeps child_id db =
    auto_close_levels-relates Keeps (λ a. (refl, λ keyed all. all)) Keeps-trans
      (λ child terminal parent a found is_open at. close-Keeps child terminal parent a at) 51
      child_id db

move-IsSettled :
    (states : List IssueState) (id version now : ℕ) (target : IssueState) (r : Issue)
    → find (state_has_id id) states ≡ some target
    → IsSettled states (move target version now r)
move-IsSettled states id version now target r found =
    let same : id ≡ target.id = ground (arith, find-passes (state_has_id id) states target found) in
    IsSettled-by states target (move target version now r)
      (subst (λ i. find (state_has_id i) states ≡ some target) same found) refl refl (ground arith)

move_issue-settled :
    (override : Bool) (id to_state_id version : ℕ) (user : Option String) (current : Issue)
    (seen db : Db) (row : Issue) (after : Db)
    → seen.states ≡ db.states
    → AreKeyed db.states
    → AreSettled db
    → move_issue override id to_state_id version user current seen db ≡ ok (row, after)
    → AreSettled after
unfolding record_event find_state
move_issue-settled override id to_state_id version user current seen db row after same keyed all h =
    let (target, old, checked, at, found, is_row, is_db) =
      move_issue-ok override id to_state_id version user current seen db row after h in
    let at' : find (state_has_id to_state_id) db.states ≡ some target =
      subst (λ l. find (state_has_id to_state_id) l ≡ some target) same at in
    let moved_db = moved override id to_state_id version user current seen db target in
    let settled : AreSettled moved_db =
      All-update (IsSettled db.states) (IsSettled db.states) (has_version id version)
        (move target version db.now) db.issues
        (λ r h moved. move-IsSettled db.states to_state_id version db.now target r at')
        (λ r h kept. h) all in
    elim (Bool-cases target.is_terminal) [
      | inl c ↦ rw is_db (rw c ((auto_close-Keeps id moved_db).1 keyed settled))
      | inr c ↦ rw is_db (rw c settled)
    ]

create-settled :
    (render : String → String) (input : CreateIssueInput) (db : Db) (row : Issue) (after : Db)
    → AreKeyed db.states
    → AreSettled db
    → create render input db ≡ ok (row, after)
    → AreSettled after
create-settled render input db row after keyed all h =
    let (initial, status_id, at, is_row, is_db, same) = create-ok render input db row after h in
    let candidate = first_state-candidate input.project_id false db initial at in
    let open_state : initial.is_terminal ≡ false = ground arith in
    let new_row : IsSettled db.states row =
      IsSettled-by db.states initial row
        (first_state-found input.project_id false db initial keyed at)
        (ap (λ (r : Issue). r.state_id) is_row)
        (ap (λ (r : Issue). r.is_closed) is_row ∙ sym open_state)
        (ap (λ (r : Issue). is_some r.closed_at) is_row ∙ sym open_state) in
    rw (same, is_db) (All-append (IsSettled db.states) db.issues (row ∷ []) all (new_row, tt))

-- An operation that has returned a row and left a store; a move has read the store `seen` before, with
-- the same catalog of states.
pub data Wrote (db : Db) (row : Issue) (after : Db) : Type 0 where
  created :
      (render : String → String) (input : CreateIssueInput)
      → create render input db ≡ ok (row, after)
      → Wrote db row after
  transitioned :
      (id to_state_id version project_id : ℕ) (user : Option String) (seen : Db)
      → seen.states ≡ db.states
      → transition id to_state_id version project_id user seen db ≡ ok (row, after)
      → Wrote db row after
  overridden :
      (id to_state_id version : ℕ) (user : Option String) (seen : Db)
      → seen.states ≡ db.states
      → state_override id to_state_id version user seen db ≡ ok (row, after)
      → Wrote db row after

-- Creating an issue, a transition and a state override, with every parent they close, keep each issue
-- closed exactly when its state is terminal, with a closing time exactly when it is closed.
pub Wrote-AreSettled :
    (db after : Db) (row : Issue)
    → AreKeyed db.states
    → AreSettled db
    → Wrote db row after
    → AreSettled after
unfolding transition state_override
Wrote-AreSettled db after row keyed all (created render input h) =
    create-settled render input db row after keyed all h
Wrote-AreSettled db after row keyed all
      (transitioned id to_state_id version project_id user seen same h) =
    let (current, read, moved) =
      >>=-eq-ok
        (or_throw (find (λ (i : Issue). i.id == id && i.project_id == project_id) seen.issues)
          IssueError.issue_not_found)
        (λ c. move_issue false id to_state_id version user c seen db) h in
    move_issue-settled false id to_state_id version user current seen db row after same keyed all
      moved
Wrote-AreSettled db after row keyed all (overridden id to_state_id version user seen same h) =
    let (current, read, moved) =
      >>=-eq-ok (or_throw (find_issue id seen) IssueError.issue_not_found)
        (λ c. move_issue true id to_state_id version user c seen db) h in
    move_issue-settled true id to_state_id version user current seen db row after same keyed all
      moved
