-- ===== src/Executor/Given.antt =====
-- Texts that may be missing or empty, as the conditions of src/core/orchestrator read them.
use fluxaos.Prelude.{
  String, ◌≡◌, ◌≢◌, refl, subst, false, str_eq, eq_iff, Option, none, some, Bool-cases, inl, inr,
  ◌⊎◌,
}
use fluxaos.Executor.Ports.{given}

pub differs : (a b : String) → str_eq a b ≡ false → a ≢ b
differs a b h e = let same = (eq_iff a b).1 e in absurd (cc (same, h))

pub differs_of : (a b : String) → a ≢ b → str_eq a b ≡ false
differs_of a b h = elim (Bool-cases (str_eq a b)) [
  | inl t ↦ absurd (h ((eq_iff a b).0 t))
  | inr t ↦ t
]

pub given-some :
    (o : Option String) (name : String) → given o ≡ some name → (o ≡ some name) × (name ≢ "")
given-some none name h = absurd (cc)
given-some (some s) name h = elim (Bool-cases (str_eq s "")) [
  | inl t ↦ let nothing : none ≡ some name = rw t at h in absurd (cc)
  | inr t ↦
      let here : some s ≡ some name = rw t at h in
      let same : s ≡ name = cc in (here, subst (λ n. n ≢ "") same (differs s "" t))
]

pub some-given :
    (o : Option String) (name : String) → o ≡ some name → name ≢ "" → given o ≡ some name
some-given o name h full = let other = differs_of name "" full in rw h (rw other refl)

pub given-none : (o : Option String) → given o ≡ none → (o ≡ none) ⊎ (o ≡ some "")
given-none none h = inl refl
given-none (some s) h = elim (Bool-cases (str_eq s "")) [
  | inl t ↦ let same = (eq_iff s "").0 t in inr (rw same refl)
  | inr t ↦ let something : some s ≡ none = rw t at h in absurd (cc)
]
