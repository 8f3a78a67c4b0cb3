-- ===== src/Commands/Rendered.antt =====
-- `renderTemplate` of src/core/orchestrator/command-builder.ts, on templates that are made of parts.
use Prim.Native.Char.{Char}
use fluxaos.Prelude.{
  and_true, ◌+◌, ◌≡◌, refl, sym, ◌∙◌, ap, Bool, true, false, not, Option, none, some, List, [], ◌∷◌,
  ◌++◌, append_assoc, length, length-append, arith, every,
}
use fluxaos.Commands.Template.{
  is_open, open_brace, close_brace, is_word, word_run, after_word, key_if, placeholder, braced,
  value_or_match, render_from, render_template,
}

-- A stretch of text without a brace that opens, or a variable.
pub data Part : Type 0 where
  text variable : List Char → Part

abbrev has_no_open : List Char → Bool
has_no_open s = every (λ c. not (is_open c)) s

abbrev is_key : List Char → Bool
is_key [] = false
is_key (c ∷ s) = every is_word (c ∷ s)

abbrev pub is_part : Part → Bool
is_part (text s) = has_no_open s
is_part (variable key) = is_key key

-- A variable as it stands in a template.
abbrev pub shown : List Char → List Char
shown key = "{" ∷ "{" ∷ (key ++ "}" ∷ "}" ∷ [])

-- What a variable is replaced with.
abbrev pub value_of : Option (List Char) → List Char → List Char
value_of (some value) key = value
value_of none key = shown key

value_or_match-value_of :
    (o : Option (List Char)) (key : List Char) → value_or_match o key ≡ value_of o key
value_or_match-value_of (some value) key = refl
value_or_match-value_of none key = refl

unfoldable pub print : List Part → List Char
print [] = []
print (text s ∷ parts) = s ++ print parts
print (variable key ∷ parts) = shown key ++ print parts

placeholder-other : (c : Char) (s : List Char) → is_open c ≡ false → placeholder (c ∷ s) ≡ none
unfolding placeholder
placeholder-other c [] h = refl
placeholder-other c (d ∷ s) h = rw h refl

module _ (variables : List Char → Option (List Char)) where
  unfoldable pub values : List Part → List Char
  values [] = []
  values (text s ∷ parts) = s ++ values parts
  values (variable key ∷ parts) = value_of (variables key) key ++ values parts

  render_from-text :
      (s rest : List Char)
      → has_no_open s ≡ true
      → render_from variables 0 (s ++ rest) ≡ s ++ render_from variables 0 rest
  unfolding render_from every
  render_from-text [] rest h = refl
  render_from-text (c ∷ s) rest h =
      let (other, others) = and_true (not (is_open c)) (has_no_open s) h in
      let no_brace : is_open c ≡ false = ground arith in
      rw (placeholder-other c (s ++ rest) no_brace, render_from)
        (ap (λ l. c ∷ l) (render_from-text s rest others))

  render_from-skip :
      (s rest : List Char)
      → render_from variables (length s) (s ++ rest) ≡ render_from variables 0 rest
  unfolding render_from
  render_from-skip [] [] = refl
  render_from-skip [] (c ∷ rest) = refl
  render_from-skip (c ∷ s) rest = render_from-skip s rest

word_run-key :
    (key rest : List Char) → every is_word key ≡ true → word_run (key ++ close_brace ∷ rest) ≡ key
unfolding word_run every
word_run-key [] rest h = refl
word_run-key (c ∷ key) rest h =
    let (word, words) = and_true (is_word c) (every is_word key) h in
    rw word (ap (λ l. c ∷ l) (word_run-key key rest words))

after_word-key :
    (key rest : List Char)
    → every is_word key ≡ true
    → after_word (key ++ close_brace ∷ rest) ≡ close_brace ∷ rest
unfolding after_word every
after_word-key [] rest h = refl
after_word-key (c ∷ key) rest h =
    let (word, words) = and_true (is_word c) (every is_word key) h in
    rw word (after_word-key key rest words)

every_of_key : (key : List Char) → is_key key ≡ true → every is_word key ≡ true
unfolding every
every_of_key [] h = refl
every_of_key (c ∷ key) h = h

key_if-key : (key : List Char) → is_key key ≡ true → key_if true key ≡ some key
key_if-key [] h = absurd (cc)
key_if-key (c ∷ key) h = refl

placeholder-braced :
    (key rest : List Char) → is_key key ≡ true → placeholder (braced key ++ rest) ≡ some key
unfolding placeholder
placeholder-braced key rest h =
    let words = every_of_key key h in
    let again = append_assoc key (close_brace ∷ close_brace ∷ []) rest in
    rw
      (
        again,
        after_word-key key (close_brace ∷ rest) words,
        word_run-key key (close_brace ∷ rest) words,
      )
      (key_if-key key h)

module _ (variables : List Char → Option (List Char)) where
  render_from-braced :
      (key rest : List Char)
      → is_key key ≡ true
      → render_from variables 0 (braced key ++ rest)
        ≡ value_or_match (variables key) key ++ render_from variables 0 rest
  unfolding render_from
  render_from-braced key rest h =
      let tail : List Char = open_brace ∷ (key ++ close_brace ∷ close_brace ∷ []) in
      let long : length tail ≡ length key + 3 =
        omega (arith, length-append {0} key (close_brace ∷ close_brace ∷ [])) in
      let skipped : render_from variables (length key + 3) (tail ++ rest)
          ≡ render_from variables 0 rest =
        ap (λ n. render_from variables n (tail ++ rest)) (sym long)
        ∙ render_from-skip variables tail rest in
      rw (placeholder-braced key rest h, render_from)
        (ap (λ l. value_or_match (variables key) key ++ l) skipped)

  render_from-nil : render_from variables 0 [] ≡ []
  unfolding render_from
  render_from-nil = refl

  printed :
      (parts : List Part)
      → every is_part parts ≡ true
      → render_from variables 0 (print parts) ≡ values variables parts
  unfolding every print values
  printed [] h = render_from-nil
  printed (text s ∷ parts) h =
      let (here, later) = and_true (has_no_open s) (every is_part parts) h in
      render_from-text variables s (print parts) here ∙ ap (λ l. s ++ l) (printed parts later)
  printed (variable key ∷ parts) h =
      let (here, later) = and_true (is_key key) (every is_part parts) h in
      render_from-braced key (print parts) here
      ∙ ap (λ l. value_or_match (variables key) key ++ l) (printed parts later)
      ∙ ap (λ v. v ++ values variables parts) (value_or_match-value_of (variables key) key)

  -- A template that is printed from parts, texts without an opening brace and variables, renders to the
  -- texts and the values of the variables; a variable without a value is left as it stands.
  pub render_template-print :
      (parts : List Part)
      → every is_part parts ≡ true
      → render_template variables (print parts) ≡ values variables parts
  unfolding render_template
  render_template-print parts h = printed parts h
