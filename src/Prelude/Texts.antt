-- ===== src/Prelude/Texts.antt =====
-- JavaScript's strings: code points, the length in UTF-16 units, `includes`, `split` and decimals.
use Prim.Native.Nat.{ℕ, zero, suc, ◌+◌, ◌/◌, ◌%◌}
use Prim.Native.Char.{Char, code}
use Prim.Native.String
use Prim.Native.String.{String}
use mathlib.Core.Bool.{Bool, true, false, ◌&&◌, ◌||◌}
use mathlib.Core.List.{List, [], ◌∷◌, ◌++◌}
use mathlib.Core.Path.{◌≡◌, ap}
use mathlib.Core.Logic.{inl, inr}
use text.Mathlib.TextLemmas.{nil-append, cons-append}
use fluxaos.Prelude.Tests.{Bool-cases, ==_refl, ltb, ◌==◌, if◌then◌else◌}

infixl 65 ◌+s◌
-- `a + b` of two strings.
abbrev pub ◌+s◌ : String → String → String
a +s b = String.◌++◌ a b

abbrev pub codes : String → List ℕ
codes String.[] = []
codes (String.◌∷◌ c s) = code c ∷ codes s

abbrev pub chars : String → List Char
chars String.[] = []
chars (String.◌∷◌ c s) = c ∷ chars s

abbrev pub of_chars : List Char → String
of_chars [] = String.[]
of_chars (c ∷ s) = String.◌∷◌ c (of_chars s)

-- `s.length`: a code point beyond the basic plane takes two units.
unfoldable pub utf16_length : String → ℕ
utf16_length String.[] = 0
utf16_length (String.◌∷◌ c s) = (if ltb (code c) 0x1_0000 then 1 else 2) + utf16_length s

unfoldable pub is_prefix : List ℕ → List ℕ → Bool
is_prefix [] ys = true
is_prefix (x ∷ xs) [] = false
is_prefix (x ∷ xs) (y ∷ ys) = x == y && is_prefix xs ys

includes_from : List ℕ → List ℕ → Bool
includes_from needle [] = is_prefix needle []
includes_from needle (y ∷ ys) = is_prefix needle (y ∷ ys) || includes_from needle ys

-- `text.includes(needle)`
unfoldable pub str_includes : String → String → Bool
unfolding includes_from is_prefix
str_includes text needle = includes_from (codes needle) (codes text)

split_from : ℕ → String → String → List String
split_from sep cur String.[] = cur ∷ []
split_from sep cur (String.◌∷◌ c s) =
    let closed = cur ∷ split_from sep "" s in
    let longer = split_from sep (cur +s String.◌∷◌ c String.[]) s in
    if code c == sep then closed else longer

-- `text.split(sep)` for a separator of one code point.
unfoldable pub split : String → ℕ → List String
unfolding split_from
split text sep = split_from sep "" text

digit : ℕ → String
digit zero = "0"
digit (suc zero) = "1"
digit (suc (suc zero)) = "2"
digit (suc (suc (suc zero))) = "3"
digit (suc (suc (suc (suc zero)))) = "4"
digit (suc (suc (suc (suc (suc zero))))) = "5"
digit (suc (suc (suc (suc (suc (suc zero)))))) = "6"
digit (suc (suc (suc (suc (suc (suc (suc zero))))))) = "7"
digit (suc (suc (suc (suc (suc (suc (suc (suc zero)))))))) = "8"
digit _ = "9"

digits_from : ℕ → ℕ → String → String
digits_from zero n rest = rest
digits_from (suc fuel) n rest =
    let shown = digit (n % 10) +s rest in
    let more = digits_from fuel (n / 10) shown in if ltb n 10 then shown else more

-- A number in a template string.
unfoldable pub decimal : ℕ → String
unfolding digits_from digit
decimal n = digits_from (suc n) n ""

split_from-append :
    (c : Char) (cur a b : String)
    → split_from (code c) cur (a +s String.◌∷◌ c b)
      ≡ split_from (code c) cur a ++ split_from (code c) "" b
unfolding split_from
split_from-append c cur String.[] b = rw nil-append (rw (==_refl (code c)))
split_from-append c cur (String.◌∷◌ d a) b = rw cons-append (elim (Bool-cases (code d == code c)) [
  | inl e ↦ rw e (ap (λ l. cur ∷ l) (split_from-append c "" a b))
  | inr e ↦ rw e (split_from-append c (cur +s String.◌∷◌ d String.[]) a b)
])

-- Splitting a text at a separator that it is known to hold.
pub split-append :
    (c : Char) (a b : String)
    → split (a +s String.◌∷◌ c b) (code c) ≡ split a (code c) ++ split b (code c)
unfolding split
split-append c a b = split_from-append c "" a b
