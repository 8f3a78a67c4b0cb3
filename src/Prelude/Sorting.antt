-- ===== src/Prelude/Sorting.antt =====
-- `ORDER BY key` and `xs.sort((a, b) => key(a) - key(b))`: a stable sort, its order, and what it keeps.
use Prim.Native.Nat.{ℕ, ◌≤◌}
use mathlib.Core.Path.{◌∙◌, ◌≡◌, refl}
use mathlib.Core.Bool.{Bool}
use mathlib.Core.Logic.{inl, inr}
use mathlib.Core.List.{List, [], ◌∷◌, Perm}
use mathlib.Core.List.Perm
use native.Mathlib.Omega.{arith}
use fluxaos.Prelude.Tests.{leb, if◌then◌else◌, leb→le, not_leb→lt, le→leb, Bool-cases}
use fluxaos.Prelude.Lists.{count, All, filter, filter-keeps}

module _ {ℓ} {A : Type ℓ} (key : A → ℕ) where
  unfoldable pub insert_by : A → List A → List A
  insert_by x [] = x ∷ []
  insert_by x (y ∷ ys) = if leb (key x) (key y) then x ∷ y ∷ ys else y ∷ insert_by x ys

  unfoldable pub sort_by : List A → List A
  unfolding insert_by
  sort_by [] = []
  sort_by (x ∷ xs) = insert_by x (sort_by xs)

  abbrev pub IsSortedBy : List A → Type 0
  IsSortedBy [] = Unit
  IsSortedBy (x ∷ xs) = All (λ y. key x ≤ key y) xs × IsSortedBy xs

  All-le_trans : (n m : ℕ) (xs : List A) → n ≤ m → All (λ y. m ≤ key y) xs → All (λ y. n ≤ key y) xs
  All-le_trans n m [] h hs = tt
  All-le_trans n m (x ∷ xs) h hs = (omega arith, All-le_trans n m xs h hs.1)

  insert_by-All :
      (n : ℕ) (x : A) (xs : List A)
      → n ≤ key x
      → All (λ y. n ≤ key y) xs
      → All (λ y. n ≤ key y) (insert_by x xs)
  unfolding insert_by
  insert_by-All n x [] h hs = (h, tt)
  insert_by-All n x (y ∷ ys) h hs = elim (Bool-cases (leb (key x) (key y))) [
    | inl e ↦ rw e (h, hs)
    | inr e ↦ rw e (hs.0, insert_by-All n x ys h hs.1)
  ]

  insert_by-IsSortedBy : (x : A) (xs : List A) → IsSortedBy xs → IsSortedBy (insert_by x xs)
  unfolding insert_by
  insert_by-IsSortedBy x [] s = (tt, tt)
  insert_by-IsSortedBy x (y ∷ ys) s = elim (Bool-cases (leb (key x) (key y))) [
    | inl e ↦ let h = leb→le _ _ e in rw e ((h, All-le_trans (key x) (key y) ys h s.0), s)
    | inr e ↦
        let h = not_leb→lt _ _ e in
        rw e (insert_by-All (key y) x ys (omega arith) s.0, insert_by-IsSortedBy x ys s.1)
  ]

  pub sort_by-IsSortedBy : (xs : List A) → IsSortedBy (sort_by xs)
  unfolding sort_by
  sort_by-IsSortedBy [] = tt
  sort_by-IsSortedBy (x ∷ xs) = insert_by-IsSortedBy x (sort_by xs) (sort_by-IsSortedBy xs)

  insert_by-perm : (x : A) (xs : List A) → Perm (insert_by x xs) (x ∷ xs)
  unfolding insert_by
  insert_by-perm x [] = Perm.refl _
  insert_by-perm x (y ∷ ys) = elim (Bool-cases (leb (key x) (key y))) [
    | inl e ↦ rw e (Perm.refl _)
    | inr e ↦ rw e (Perm.trans (Perm.cons y (insert_by-perm x ys)) (Perm.swap _ _ _))
  ]

  pub sort_by-perm : (xs : List A) → Perm (sort_by xs) xs
  unfolding sort_by
  sort_by-perm [] = Perm.refl _
  sort_by-perm (x ∷ xs) = Perm.trans (insert_by-perm x (sort_by xs)) (Perm.cons x (sort_by-perm xs))

  -- A sorted list is left as it is.
  insert_by-first : (x : A) (xs : List A) → All (λ y. key x ≤ key y) xs → insert_by x xs ≡ x ∷ xs
  unfolding insert_by
  insert_by-first x [] h = refl
  insert_by-first x (y ∷ ys) h = rw (le→leb _ _ h.0)

  pub sort_by_sorted : (xs : List A) → IsSortedBy xs → sort_by xs ≡ xs
  unfolding sort_by
  sort_by_sorted [] s = refl
  sort_by_sorted (x ∷ xs) s = rw (sort_by_sorted xs s.1) (insert_by-first x xs s.0)

  insert_by-keeps {κ} :
      (P : A → Type κ) (x : A) (xs : List A) → P x → All P xs → All P (insert_by x xs)
  unfolding insert_by
  insert_by-keeps P x [] h hs = (h, tt)
  insert_by-keeps P x (y ∷ ys) h hs = elim (Bool-cases (leb (key x) (key y))) [
    | inl e ↦ rw e (h, hs)
    | inr e ↦ rw e (hs.0, insert_by-keeps P x ys h hs.1)
  ]

  pub sort_by-keeps {κ} : (P : A → Type κ) (xs : List A) → All P xs → All P (sort_by xs)
  unfolding sort_by
  sort_by-keeps P [] h = tt
  sort_by-keeps P (x ∷ xs) h = insert_by-keeps P x (sort_by xs) h.0 (sort_by-keeps P xs h.1)

  pub filter-IsSortedBy : (p : A → Bool) (xs : List A) → IsSortedBy xs → IsSortedBy (filter p xs)
  unfolding filter
  filter-IsSortedBy p [] s = tt
  filter-IsSortedBy p (x ∷ xs) s = elim (Bool-cases (p x)) [
    | inl e ↦ rw e (filter-keeps _ p xs s.0, filter-IsSortedBy p xs s.1)
    | inr e ↦ rw e (filter-IsSortedBy p xs s.1)
  ]

-- What holds of every element of a sorted list holds of every element of the list.
module _ {ℓ κ} {A : Type ℓ} (key : A → ℕ) (P : A → Type κ) where
  insert_by-All_of : (x : A) (xs : List A) → All P (insert_by key x xs) → P x × All P xs
  unfolding insert_by
  insert_by-All_of x [] h = h
  insert_by-All_of x (y ∷ ys) h = elim (Bool-cases (leb (key x) (key y))) [
    | inl e ↦ let h' : All P (x ∷ y ∷ ys) = rw e at h in h'
    | inr e ↦
        let h' : All P (y ∷ insert_by key x ys) = rw e at h in
        let s = insert_by-All_of x ys h'.1 in (s.0, (h'.0, s.1))
  ]

  pub sort_by-All_of : (xs : List A) → All P (sort_by key xs) → All P xs
  unfolding sort_by
  sort_by-All_of [] h = tt
  sort_by-All_of (x ∷ xs) h =
      let s = insert_by-All_of x (sort_by key xs) h in (s.0, sort_by-All_of xs s.1)

module _ {ℓ} {A : Type ℓ} (key : A → ℕ) (q : A → Bool) where
  count-insert_by : (x : A) (xs : List A) → count q (insert_by key x xs) ≡ count q (x ∷ xs)
  unfolding insert_by count
  count-insert_by x [] = refl
  count-insert_by x (y ∷ ys) = elim (Bool-cases (leb (key x) (key y))) [
    | inl t ↦ rw t refl
    | inr t ↦ rw t (ground (arith, count-insert_by x ys))
  ]

  -- Sorting loses nothing.
  pub count-sort_by : (xs : List A) → count q (sort_by key xs) ≡ count q xs
  unfolding sort_by count
  count-sort_by [] = refl
  count-sort_by (x ∷ xs) = count-insert_by x (sort_by key xs) ∙ ground (arith, count-sort_by xs)
