-- ===== src/Prelude/Lists.antt =====
-- Lists measured by native numbers, and tests and predicates over lists.
use Prim.Native.Nat.{ℕ, suc, ◌+◌}
use mathlib.Core.Path.{◌≡◌, refl, ap, ◌∙◌, subst}
use mathlib.Core.Bool.{Bool, true, false, ◌&&◌, ◌||◌}
use mathlib.Core.List.{List, [], ◌∷◌, ◌++◌}
use mathlib.Core.Option.{Option, none, some}
use mathlib.Core.Logic.{inl, inr}
use native.Mathlib.Omega.{arith}
use fluxaos.Prelude.Tests.{if◌then◌else◌, Bool-cases}

module _ {ℓ} {A : Type ℓ} where
  abbrev pub length : List A → ℕ
  length [] = 0
  length (x ∷ xs) = suc (length xs)

  abbrev pub head? : List A → Option A
  head? [] = none
  head? (x ∷ xs) = some x

  pub length-append : (xs ys : List A) → length (xs ++ ys) ≡ length xs + length ys
  length-append [] ys = omega arith
  length-append (x ∷ xs) ys = omega (arith, length-append xs ys)

  -- `xs.every(p)`, `xs.some(p)`, `xs.find(p)` and `xs.filter(p)`.
  unfoldable pub every : (A → Bool) → List A → Bool
  every p [] = true
  every p (x ∷ xs) = p x && every p xs

  unfoldable pub any : (A → Bool) → List A → Bool
  any p [] = false
  any p (x ∷ xs) = p x || any p xs

  unfoldable pub find : (A → Bool) → List A → Option A
  find p [] = none
  find p (x ∷ xs) = if p x then some x else find p xs

  unfoldable pub filter : (A → Bool) → List A → List A
  filter p [] = []
  filter p (x ∷ xs) = if p x then x ∷ filter p xs else filter p xs

  -- How many elements pass the test.
  unfoldable pub count : (A → Bool) → List A → ℕ
  count p [] = 0
  count p (x ∷ xs) = if p x then suc (count p xs) else count p xs

module _ {ℓ κ} {A : Type ℓ} where
  abbrev pub All : (A → Type κ) → List A → Type κ
  All P [] = Unit
  All P (x ∷ xs) = P x × All P xs

  pub All-append : (P : A → Type κ) (xs ys : List A) → All P xs → All P ys → All P (xs ++ ys)
  All-append P [] ys hx hy = hy
  All-append P (x ∷ xs) ys hx hy = (hx.0, All-append P xs ys hx.1 hy)

  pub All-map : (P Q : A → Type κ) (xs : List A) → ((x : A) → P x → Q x) → All P xs → All Q xs
  All-map P Q [] f h = tt
  All-map P Q (x ∷ xs) f h = (f x h.0, All-map P Q xs f h.1)

  pub All-split : (P : A → Type κ) (xs ys : List A) → All P (xs ++ ys) → All P xs × All P ys
  All-split P [] ys h = (tt, h)
  All-split P (x ∷ xs) ys h = let s = All-split P xs ys h.1 in ((h.0, s.0), s.1)

module _ {ℓ} {A : Type ℓ} where
  pub count-append : (p : A → Bool) (xs ys : List A) → count p (xs ++ ys) ≡ count p xs + count p ys
  unfolding count
  count-append p [] ys = omega arith
  count-append p (x ∷ xs) ys = ground (arith, count-append p xs ys)

  pub length-filter : (p : A → Bool) (xs : List A) → length (filter p xs) ≡ count p xs
  unfolding filter count
  length-filter p [] = refl
  length-filter p (x ∷ xs) = ground (arith, length-filter p xs)

  pub filter-append :
      (p : A → Bool) (xs ys : List A) → filter p (xs ++ ys) ≡ filter p xs ++ filter p ys
  unfolding filter
  filter-append p [] ys = refl
  filter-append p (x ∷ xs) ys = ground (arith, filter-append p xs ys)

  pub All-filter : (p : A → Bool) (xs : List A) → All (λ x. p x ≡ true) xs → filter p xs ≡ xs
  unfolding filter
  All-filter p [] h = refl
  All-filter p (x ∷ xs) h = rw h.0 (ap (λ l. x ∷ l) (All-filter p xs h.1))

  pub filter_none : (p : A → Bool) (xs : List A) → All (λ x. p x ≡ false) xs → filter p xs ≡ []
  unfolding filter
  filter_none p [] h = refl
  filter_none p (x ∷ xs) h = rw h.0 (filter_none p xs h.1)

  pub filter-All : (p : A → Bool) (xs : List A) → All (λ x. p x ≡ true) (filter p xs)
  unfolding filter
  filter-All p [] = tt
  filter-All p (x ∷ xs) = elim (Bool-cases (p x)) [
    | inl e ↦ rw e (e, filter-All p xs)
    | inr e ↦ rw e (filter-All p xs)
  ]

  -- What holds of every element holds of those that pass.
  pub filter-keeps {κ} :
      (P : A → Type κ) (p : A → Bool) (xs : List A) → All P xs → All P (filter p xs)
  unfolding filter
  filter-keeps P p [] h = tt
  filter-keeps P p (x ∷ xs) h = elim (Bool-cases (p x)) [
    | inl e ↦ rw e (h.0, filter-keeps P p xs h.1)
    | inr e ↦ rw e (filter-keeps P p xs h.1)
  ]

  pub find-passes : (p : A → Bool) (xs : List A) (a : A) → find p xs ≡ some a → p a ≡ true
  unfolding find
  find-passes p [] a h = ground arith
  find-passes p (x ∷ xs) a h = ground (arith, find-passes p xs a)

  -- A stronger test finds the same element where that element passes it.
  pub find-stronger :
      (p q : A → Bool) (xs : List A) (a : A)
      → ((x : A) → p x ≡ true → q x ≡ true)
      → find q xs ≡ some a
      → p a ≡ true
      → find p xs ≡ some a
  unfolding find
  find-stronger p q [] a weaker h e = absurd (cc)
  find-stronger p q (x ∷ xs) a weaker h e = elim (Bool-cases (q x)) [
    | inl c ↦
        let same : some x ≡ some a = rw c at h in
        rw (ap (λ o. elim o [ none ↦ p x | some y ↦ p y ]) same ∙ e) same
    | inr c ↦ elim (Bool-cases (p x)) [
      | inl d ↦ absurd (cc (weaker x d))
      | inr d ↦ rw d (find-stronger p q xs a weaker (rw c at h) e)
    ]
  ]

module _ {ℓ κ} {A : Type ℓ} (P : A → Type κ) (p : A → Bool) where
  -- What holds of the elements that pass holds of every element if it passes.
  pub filter-All_of : (xs : List A) → All P (filter p xs) → All (λ x. p x ≡ true → P x) xs
  unfolding filter
  filter-All_of [] h = tt
  filter-All_of (x ∷ xs) h = elim (Bool-cases (p x)) [
    | inl e ↦ let h' : All P (x ∷ filter p xs) = rw e at h in (λ c. h'.0, filter-All_of xs h'.1)
    | inr e ↦ (λ c. absurd (cc), filter-All_of xs (rw e at h))
  ]

-- A write to every row that passes a test, as SQL's `UPDATE … SET … WHERE` makes.
module _ {ℓ} {A : Type ℓ} where
  unfoldable pub update_where : (A → Bool) → (A → A) → List A → List A
  update_where p f [] = []
  update_where p f (x ∷ xs) = (if p x then f x else x) ∷ update_where p f xs

  pub length-update_where :
      (p : A → Bool) (f : A → A) (xs : List A) → length (update_where p f xs) ≡ length xs
  unfolding update_where
  length-update_where p f [] = refl
  length-update_where p f (x ∷ xs) = ap suc (length-update_where p f xs)

abbrev map_some {ℓ} : {A : Type ℓ} → (A → A) → Option A → Option A
map_some f none = none
map_some f (some a) = some (f a)

written {ℓ} :
    {A : Type ℓ} (q p : A → Bool) (f : A → A) (x : A)
    → ((y : A) → q (f y) ≡ q y)
    → q (if p x then f x else x) ≡ q x
written q p f x same = elim (Bool-cases (p x)) [ inl e ↦ rw e (same x) | inr e ↦ rw e refl ]

module _ {ℓ} {A : Type ℓ} where
  -- The row that a test finds, after a write that does not change the test.
  pub find-update :
      (q p : A → Bool) (f : A → A) (xs : List A) (a : A)
      → ((x : A) → q (f x) ≡ q x)
      → find q xs ≡ some a
      → find q (update_where p f xs) ≡ some (if p a then f a else a)
  unfolding find update_where
  find-update q p f [] a same h = cc
  find-update q p f (x ∷ xs) a same h = elim (Bool-cases (q x)) [
    | inl e ↦
        let here : some x ≡ some a = rw e at h in
        rw (written q p f x same ∙ e) (ap (λ o. map_some (λ y. if p y then f y else y) o) here)
    | inr e ↦ rw (written q p f x same ∙ e) (find-update q p f xs a same (rw e at h))
  ]

  -- What a test does not find, it does not find after such a write.
  pub find-none-update :
      (q p : A → Bool) (f : A → A) (xs : List A)
      → ((x : A) → q (f x) ≡ q x)
      → find q xs ≡ none
      → find q (update_where p f xs) ≡ none
  unfolding find update_where
  find-none-update q p f [] same h = refl
  find-none-update q p f (x ∷ xs) same h = elim (Bool-cases (q x)) [
    | inl e ↦ absurd (cc (rw e at h))
    | inr e ↦ rw (written q p f x same ∙ e) (find-none-update q p f xs same (rw e at h))
  ]

-- What holds of all elements holds of the one that is found.
pub find-All {ℓ κ} :
    {A : Type ℓ} (P : A → Type κ) (p : A → Bool) (xs : List A) (a : A)
    → All P xs
    → find p xs ≡ some a
    → P a
unfolding find
find-All P p [] a h e = absurd (cc)
find-All P p (x ∷ xs) a h e = elim (Bool-cases (p x)) [
  | inl t ↦ let same : some x ≡ some a = rw t at e in let x_is : x ≡ a = cc in subst P x_is h.0
  | inr t ↦ find-All P p xs a h.1 (rw t at e)
]

-- What is found nowhere else is found at the end.
pub find-append {ℓ} :
    {A : Type ℓ} (p : A → Bool) (xs : List A) (y : A)
    → find p xs ≡ none
    → p y ≡ true
    → find p (xs ++ y ∷ []) ≡ some y
unfolding find
find-append p [] y e f = rw f refl
find-append p (x ∷ xs) y e f = elim (Bool-cases (p x)) [
  | inl t ↦ let wrong : some x ≡ none = rw t at e in absurd (cc)
  | inr t ↦ rw t (find-append p xs y (rw t at e) f)
]

pub count-filter {ℓ} :
    {A : Type ℓ} (q p : A → Bool) (xs : List A) → count q (filter p xs) ≡ count (λ x. p x && q x) xs
unfolding count filter
count-filter q p [] = refl
count-filter q p (x ∷ xs) = elim (Bool-cases (p x)) [
  | inl t ↦ rw t (ground (arith, count-filter q p xs))
  | inr t ↦ rw t (count-filter q p xs)
]
