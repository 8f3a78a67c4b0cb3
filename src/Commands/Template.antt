-- ===== src/Commands/Template.antt =====
-- `renderTemplate` of src/core/orchestrator/command-builder.ts. A text is the list of its characters.
use Prim.Native.Char.{Char, code}
use fluxaos.Prelude.{
  ℕ, zero, suc, ◌+◌, Bool, true, false, ◌&&◌, ◌||◌, Option, none, some, List, [], ◌∷◌, ◌++◌, length,
  leb, ◌==◌, if◌then◌else◌,
}

abbrev pub open_brace : Char
open_brace = "{"

abbrev pub close_brace : Char
close_brace = "}"

abbrev pub is_open : Char → Bool
is_open c = code c == 123

abbrev pub is_close : Char → Bool
is_close c = code c == 125

-- `\w`
abbrev is_word_code : ℕ → Bool
is_word_code n =
    (leb 97 n && leb n 122) || (leb 65 n && leb n 90) || (leb 48 n && leb n 57) || n == 95

abbrev pub is_word : Char → Bool
is_word c = is_word_code (code c)

-- `\w*`, as far as it goes, and what follows.
unfoldable pub word_run : List Char → List Char
word_run [] = []
word_run (c ∷ s) = if is_word c then c ∷ word_run s else []

unfoldable pub after_word : List Char → List Char
after_word [] = []
after_word (c ∷ s) = if is_word c then after_word s else c ∷ s

abbrev pub is_closed : List Char → Bool
is_closed (c ∷ d ∷ s) = is_close c && is_close d
is_closed _ = false

abbrev pub key_if : Bool → List Char → Option (List Char)
key_if false key = none
key_if true [] = none
key_if true (c ∷ s) = some (c ∷ s)

-- The key of a match of `/\{\{(\w+)\}\}/` at the beginning of a text.
unfoldable pub placeholder : List Char → Option (List Char)
unfolding word_run after_word
placeholder (c ∷ d ∷ s) = key_if (is_open c && is_open d && is_closed (after_word s)) (word_run s)
placeholder _ = none

abbrev pub braced : List Char → List Char
braced key = open_brace ∷ open_brace ∷ (key ++ close_brace ∷ close_brace ∷ [])

-- A variable that has no value stays as it is.
abbrev pub value_or_match : Option (List Char) → List Char → List Char
value_or_match (some value) key = value
value_or_match none key = braced key

module _ (variables : List Char → Option (List Char)) where
  -- `template.replace(…)`, from left to right, where so many characters are still of the last match.
  unfoldable pub render_from : ℕ → List Char → List Char
  unfolding placeholder
  render_from k [] = []
  render_from (suc k) (c ∷ s) = render_from k s
  render_from zero (c ∷ s) = elim (placeholder (c ∷ s)) [
    | none ↦ c ∷ render_from 0 s
    | some key ↦ value_or_match (variables key) key ++ render_from (length key + 3) s
  ]

  unfoldable pub render_template : List Char → List Char
  unfolding render_from
  render_template template = render_from 0 template
