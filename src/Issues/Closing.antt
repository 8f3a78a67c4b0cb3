-- ===== src/Issues/Closing.antt =====
-- src/core/services/issue.ts: what the automatic closing of parents does to the tree of issues.
use fluxaos.Prelude.{
  ℕ, suc, ◌≡◌, refl, subst, ap, ◌∙◌, sym, Bool, true, false, Option, none, some, arith, find-update,
  find-passes, Bool-cases, inl, inr, ◌⊎◌, if◌then◌else◌,
}
use fluxaos.Store.{Issue, IssueState, Db, issue_has_id}
use fluxaos.Issues.Levels.{closed_parent, auto_close_levels-relates}
use fluxaos.Issues.Lookup.{find_issue}
use fluxaos.Issues.Writes.{has_version, record_event, close_by, auto_close_levels}

abbrev pub closed_of : Option Issue → Bool
closed_of none = true
closed_of (some i) = i.is_closed

-- A row is untouched, or it goes from open to closed with the next version.
abbrev pub Closes : Issue → Issue → Type 0
Closes r r' =
    (r' ≡ r) ⊎ ((r.is_closed ≡ false) × (r'.is_closed ≡ true) × (r'.version ≡ suc r.version))

Closes-trans : (a b c : Issue) → Closes a b → Closes b c → Closes a c
Closes-trans a b c (inl e) k = ground arith
Closes-trans a b c (inr h) (inl e) = ground arith
Closes-trans a b c (inr h) (inr k) = absurd (cc (h.1, k.0))

abbrev pub OnlyCloses : Db → Db → Type 0
OnlyCloses db after =
    (id : ℕ) (r : Issue)
    → find_issue id db ≡ some r
    → (r' : Issue) × (find_issue id after ≡ some r') × Closes r r'

OnlyCloses-refl : (db : Db) → OnlyCloses db db
OnlyCloses-refl db id r h = (r, h, inl refl)

OnlyCloses-trans : (a b c : Db) → OnlyCloses a b → OnlyCloses b c → OnlyCloses a c
OnlyCloses-trans a b c h k id r found =
    let (r', found', m) = h id r found in
    let (r'', found'', m') = k id r' found' in (r'', found'', Closes-trans r r' r'' m m')

module _ (terminal : IssueState) (parent : Issue) (now : ℕ) where
  pub closed_parent-row :
      (db : Db) (id : ℕ) (r : Issue)
      → find_issue id db ≡ some r
      → find_issue id (closed_parent terminal parent now db)
        ≡ some (
            if has_version parent.id parent.version r
            then close_by terminal parent.version now r
            else r)
  unfolding find_issue
  closed_parent-row db id r h =
      find-update (issue_has_id id) (has_version parent.id parent.version)
        (close_by terminal parent.version now) db.issues r (λ q. refl) h

  closed_parent-closes :
      (db : Db)
      → find_issue parent.id db ≡ some parent
      → parent.is_closed ≡ false
      → OnlyCloses db (closed_parent terminal parent now db)
  unfolding find_issue
  closed_parent-closes db found is_open id r h =
      let key = find-passes (issue_has_id id) db.issues r h in
      elim (Bool-cases (has_version parent.id parent.version r)) [
        | inl e ↦
            let same_id : id ≡ parent.id = ground arith in
            let same : some r ≡ some parent =
              sym h ∙ subst (λ i. find_issue i db ≡ some parent) (sym same_id) found in
            (
              close_by terminal parent.version now r,
              rw (closed_parent-row db id r h) (rw e refl),
              inr (ap closed_of same ∙ is_open, refl, ground arith),
            )
        | inr e ↦ (r, rw (closed_parent-row db id r h) (rw e refl), inl refl)
      ]

pub auto_close_levels-closes :
    (levels child_id : ℕ) (db : Db) → OnlyCloses db (auto_close_levels levels child_id db)
unfolding find_issue record_event
auto_close_levels-closes =
    auto_close_levels-relates OnlyCloses OnlyCloses-refl OnlyCloses-trans
      (λ child_id terminal parent db found is_open at.
        closed_parent-closes terminal parent db.now db found is_open)
