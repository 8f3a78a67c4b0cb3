-- ===== src/Js/Sample.antt =====
-- A concrete choice of what the engine takes from JavaScript: numbers are the naturals and NaN.
use fluxaos.Prelude.{
  ℕ, ◌+◌, ◌*◌, ◌-◌, ◌≡◌, refl, Bool, true, false, ◌&&◌, Option, none, some, List, [], ◌∷◌, arith,
  ltb, leb, ◌==◌, codes, str_eq, str_includes, if◌then◌else◌,
}
use fluxaos.Js.{undef, Js, JsLaws}

abbrev pub Num : Type 0
Num = Option ℕ

unfoldable pub digits : ℕ → List ℕ → Num
digits n [] = some n
digits n (c ∷ cs) =
    let rest = digits (n * 10 + (c - 48)) cs in if leb 48 c && leb c 57 then rest else none

abbrev pub num_eq : Num → Num → Bool
num_eq (some a) (some b) = a == b
num_eq (some a) none = false
num_eq none b = false

abbrev pub num_lt : Num → Num → Bool
num_lt (some a) (some b) = ltb a b
num_lt (some a) none = false
num_lt none b = false

abbrev pub is_nan : Num → Bool
is_nan none = true
is_nan (some a) = false

abbrev pub sample_js : Js Num
sample_js = record {
  num_eq = num_eq;
  num_lt = num_lt;
  nan = none;
  is_nan = is_nan;
  number = λ s. digits 0 (codes s);
  reg_exp = λ pattern. if str_eq pattern "(" then none else some (λ s. str_includes s pattern);
  stringify = λ v. "…";
  inherited = λ key. undef;
  array_member = λ vs key. undef;
}

num_eq_symm : (a b : Num) → num_eq a b ≡ num_eq b a
num_eq_symm (some a) (some b) = ground arith
num_eq_symm (some a) none = refl
num_eq_symm none (some b) = refl
num_eq_symm none none = refl

num_lt-asymm : (a b : Num) → num_lt a b ≡ true → num_lt b a ≡ false
num_lt-asymm (some a) (some b) h = ground arith
num_lt-asymm (some a) none h = refl
num_lt-asymm none (some b) h = refl
num_lt-asymm none none h = refl

num_lt-none : (a : Num) → num_lt a none ≡ false
num_lt-none (some a) = refl
num_lt-none none = refl

pub sample_laws : JsLaws sample_js
sample_laws = record {
  eq_symm = num_eq_symm;
  nan_lt = λ a. refl;
  lt_nan = num_lt-none;
  lt_asymm = num_lt-asymm;
}
