-- ===== src/Isolation/Released.antt =====
-- src/adapters/git/worktree-isolation-provider.ts: what a release leaves as it was. A view of the host that does not
-- see the disk, and not the row that is released, is the same after a release, however it ends.
use fluxaos.Prelude.{
  ℕ, ◌≡◌, refl, String, Bool, true, false, ◌==◌, Option, none, some, find, find-passes, Bool-cases,
  inl, inr, not,
}
use fluxaos.Prelude.Actions.{
  Action, reading, Preserves, reading-Preserves, done-Preserves, throw-Preserves, >>=-Preserves,
}
use fluxaos.Isolation.Ports.{Environment, is_active, env_has_id, Host, PathPorts, DiskPorts}
use fluxaos.Isolation.Provider.{
  remove_at, on_disk, release, release_found, remove_existing, check_clean, unless_dirty,
  set_inactive,
}

module _ {D F : Type 0} (view : Host D → F)
    (blind : (h : Host D) (disk : D) → view (record h { disk = disk }) ≡ view h) where
  pub on_disk-Preserves : {A : Type 0} (action : Action D A) → Preserves view (on_disk action)
  on_disk-Preserves action = record { preserved = λ h. blind h (action h.disk).1 }

  module _ (paths : PathPorts) (ports : DiskPorts D) where
    unless_dirty-Preserves : (a b : Bool) → Preserves view (unless_dirty paths ports a b)
    unless_dirty-Preserves false true = throw-Preserves view _
    unless_dirty-Preserves false false = done-Preserves view tt
    unless_dirty-Preserves true b = done-Preserves view tt

    check_clean-Preserves :
        (force : Bool) (path : String) → Preserves view (check_clean paths ports force path)
    check_clean-Preserves true path = done-Preserves view tt
    check_clean-Preserves false path =
        >>=-Preserves view _ _ (reading-Preserves view _)
          (λ dirty. unless_dirty-Preserves false dirty)

    remove_existing-Preserves :
        (force : Bool) (path : String) (exists : Bool)
        → Preserves view (remove_existing paths ports force path exists)
    remove_existing-Preserves force path false = done-Preserves view tt
    remove_existing-Preserves force path true =
        >>=-Preserves view (check_clean paths ports force path) _ (check_clean-Preserves force path)
          (λ clean.
            >>=-Preserves view (reading (λ (h : Host D). ports.get_canonical_repo_path path h.disk))
              (remove_at paths ports force path) (reading-Preserves view _)
              (λ canonical. on_disk-Preserves _))

    module _ (id : ℕ) (force : Bool)
        (other : (row : Environment)
          → (row.id == id) ≡ true
          → Preserves view (set_inactive paths ports row.id)) where
      release_found-Preserves :
          (o : Option Environment) (h : Host D)
          → ((row : Environment) → o ≡ some row → (row.id == id) ≡ true)
          → view (release_found paths ports force o h).1 ≡ view h
      release_found-Preserves none h keyed = refl
      release_found-Preserves (some row) h keyed = elim (Bool-cases (not (is_active row.status))) [
        | inl t ↦ rw t refl
        | inr t ↦
            let exists = ports.worktree_exists row.working_path h.disk in
            rw t (
              (>>=-Preserves view (remove_existing paths ports force row.working_path exists)
                  (λ removed. set_inactive paths ports row.id)
                  (remove_existing-Preserves force row.working_path exists)
                  (λ removed. other row (keyed row refl))).preserved
                h)
      ]

      pub release-Preserves : Preserves view (release paths ports id force)
      unfolding release
      release-Preserves = record {
        preserved = λ h.
            release_found-Preserves (find (env_has_id id) h.envs) h
              (λ row e. find-passes (env_has_id id) h.envs row e);
      }
