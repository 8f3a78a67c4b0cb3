-- ===== src/Prelude/Elements.antt =====
-- The elements of a list, as what splits it, and what a write of some rows of a list changes.
use Prim.Native.Nat.{◌≤◌}
use mathlib.Core.Path.{◌∙◌, subst, ◌≡◌, refl, ap}
use mathlib.Core.Bool.{Bool, true, false}
use mathlib.Core.List.{List, [], ◌∷◌, ◌++◌}
use mathlib.Core.Option.{some}
use mathlib.Core.Logic.{inl, inr}
use native.Mathlib.Omega.{arith}
use fluxaos.Prelude.Tests.{Option-cases, if◌then◌else◌, Bool-cases}
use fluxaos.Prelude.Lists.{
  filter, All, All-map, find, find-passes, find-update, find-none-update, count, count-append,
  update_where,
}

-- An element of a list, with what stands before and after it.
abbrev pub Splits {ℓ} : {A : Type ℓ} → List A → A → Type ℓ
Splits {A} xs x = (before : List A) × (after : List A) × (xs ≡ before ++ x ∷ after)

pub All-Splits {ℓ} : {A : Type ℓ} (xs : List A) → All (Splits xs) xs
All-Splits [] = tt
All-Splits (x ∷ xs) = (
  ([], xs, refl),
  All-map (Splits xs) (Splits (x ∷ xs)) xs
      (λ y (before, after, e). (x ∷ before, after, ap (λ l. x ∷ l) e)) (All-Splits xs),
)

pub Splits-cons {ℓ} : {A : Type ℓ} (a x : A) (xs : List A) → Splits xs a → Splits (x ∷ xs) a
Splits-cons a x xs (before, after, e) = (x ∷ before, after, ap (λ l. x ∷ l) e)

pub find-Splits {ℓ} :
    {A : Type ℓ} (p : A → Bool) (xs : List A) (a : A) → find p xs ≡ some a → Splits xs a
unfolding find
find-Splits p [] a h = absurd (cc)
find-Splits p (x ∷ xs) a h = elim (Bool-cases (p x)) [
  | inl t ↦
      let here : some x ≡ some a = rw t at h in
      let same : x ≡ a = cc in ([], xs, ap (λ y. y ∷ xs) same)
  | inr t ↦ Splits-cons a x xs (find-Splits p xs a (rw t at h))
]

pub count-found {ℓ} :
    {A : Type ℓ} (q : A → Bool) (before after : List A) (x : A)
    → q x ≡ true
    → 1 ≤ count q (before ++ x ∷ after)
unfolding count
count-found q before after x h = ground (arith, count-append q before (x ∷ after), h)

pub All-update {ℓ} :
    {A : Type ℓ} (P Q : A → Type ℓ) (p : A → Bool) (f : A → A) (xs : List A)
    → ((x : A) → P x → p x ≡ true → Q (f x))
    → ((x : A) → P x → p x ≡ false → Q x)
    → All P xs
    → All Q (update_where p f xs)
unfolding update_where
All-update P Q p f [] hit miss h = tt
All-update P Q p f (x ∷ xs) hit miss h = elim (Bool-cases (p x)) [
  | inl t ↦ rw t (hit x h.0 t, All-update P Q p f xs hit miss h.1)
  | inr t ↦ rw t (miss x h.0 t, All-update P Q p f xs hit miss h.1)
]

-- What a write of all the rows that a test finds leaves to find is written.
pub find-written {ℓ} :
    {A : Type ℓ} (q : A → Bool) (f : A → A) (xs : List A) (b : A)
    → ((x : A) → q (f x) ≡ q x)
    → find q (update_where q f xs) ≡ some b
    → (a : A) × (b ≡ f a)
find-written {A = A} q f xs b same h = elim (Option-cases (find q xs)) [
  | inl e ↦ let missing = find-none-update q q f xs same e in absurd (cc)
  | inr (a, e) ↦ (a, written a (find-passes q xs a e) (find-update q q f xs a same e))
]
  where
    written :
        (a : A)
        → q a ≡ true
        → find q (update_where q f xs) ≡ some (if q a then f a else a)
        → b ≡ f a
    written a passes e =
        let there : find q (update_where q f xs) ≡ some (f a) = rw passes at e in cc

-- What holds of the elements that pass a test.
pub filter-All_from {ℓ κ} :
    {A : Type ℓ} (P : A → Type κ) (p : A → Bool) (xs : List A)
    → All (λ x. p x ≡ true → P x) xs
    → All P (filter p xs)
unfolding filter
filter-All_from P p [] h = tt
filter-All_from P p (x ∷ xs) h = elim (Bool-cases (p x)) [
  | inl t ↦ rw t (h.0 t, filter-All_from P p xs h.1)
  | inr t ↦ rw t (filter-All_from P p xs h.1)
]

-- The first element that passes a test, with what stands before it.
abbrev pub IsFirst {ℓ} : {A : Type ℓ} → (A → Bool) → List A → A → Type ℓ
IsFirst {A = A} p xs a =
    (before : List A) × (after : List A) × (xs ≡ before ++ a ∷ after)
    × (p a ≡ true)
    × All (λ x. p x ≡ false) before

pub find-IsFirst {ℓ} :
    {A : Type ℓ} (p : A → Bool) (xs : List A) (a : A) → find p xs ≡ some a → IsFirst p xs a
unfolding find
find-IsFirst p [] a h = absurd (cc)
find-IsFirst p (x ∷ xs) a h = elim (Bool-cases (p x)) [
  | inl t ↦
      let here : some x ≡ some a = rw t at h in
      let same : x ≡ a = cc in ([], xs, ap (λ y. y ∷ xs) same, subst (λ y. p y ≡ true) same t, tt)
  | inr t ↦
      let (before, after, e, passes, others) = find-IsFirst p xs a (rw t at h) in
      (x ∷ before, after, ap (λ l. x ∷ l) e, passes, (t, others))
]

find-skips {ℓ} :
    {A : Type ℓ} (p : A → Bool) (before after : List A) (a : A)
    → p a ≡ true
    → All (λ x. p x ≡ false) before
    → find p (before ++ a ∷ after) ≡ some a
unfolding find
find-skips p [] after a passes others = rw passes refl
find-skips p (x ∷ before) after a passes others =
    rw others.0 (find-skips p before after a passes others.1)

pub IsFirst-find {ℓ} :
    {A : Type ℓ} (p : A → Bool) (xs : List A) (a : A) → IsFirst p xs a → find p xs ≡ some a
IsFirst-find p xs a (before, after, e, passes, others) =
    ap (find p) e ∙ find-skips p before after a passes others
