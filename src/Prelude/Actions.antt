-- ===== src/Prelude/Actions.antt =====
-- Operations on a state that may throw, chained as `await` chains them: what was written before a throw stays.
use Prim.Native.String.{String}
use mathlib.Core.Path.{◌≡◌, refl, ap, ◌∙◌}
use fluxaos.Prelude.Results.{Result, ok, err}

abbrev pub Action : Type 0 → Type 0 → Type 0
Action S A = S → Result String A × S

abbrev pub continue_with :
    {S A B : Type 0} → Result String A × S → (A → Action S B) → Result String B × S
continue_with (err text, s) later = (err text, s)
continue_with (ok a, s) later = later a s

infixl 5 ◌>>=◌
abbrev pub ◌>>=◌ : {S A B : Type 0} → Action S A → (A → Action S B) → Action S B
(action >>= later) s = continue_with (action s) later

abbrev pub done : {S A : Type 0} → A → Action S A
done a s = (ok a, s)

abbrev pub throw : {S A : Type 0} → String → Action S A
throw text s = (err text, s)

-- A result that the state was read for.
abbrev pub settled : {S A : Type 0} → Result String A → Action S A
settled r s = (r, s)

abbrev pub reading : {S A : Type 0} → (S → Result String A) → Action S A
reading read s = (read s, s)

abbrev caught_as :
    {S A B : Type 0} → (String → Action S B) → (A → B) → Result String A × S → Result String B × S
caught_as handler f (err text, s) = handler text s
caught_as handler f (ok a, s) = (ok (f a), s)

-- `action.catch(handler)`
abbrev pub catch : {S A : Type 0} → Action S A → (String → Action S A) → Action S A
catch action handler s = caught_as handler (λ a. a) (action s)

-- A chain that returns has returned at its first call, and goes on from the state that this left.
pub >>=-returns :
    {S A B : Type 0} (action : Action S A) (later : A → Action S B) (s s' : S) (b : B)
    → (action >>= later) s ≡ (ok b, s')
    → (a : A) × (t : S) × (action s ≡ (ok a, t)) × (later a t ≡ (ok b, s'))
>>=-returns {S = S} {A = A} {B = B} action later s s' b h = go (action s) h
  where
    go :
        (r : Result String A × S)
        → continue_with r later ≡ (ok b, s')
        → (a : A) × (t : S) × (r ≡ (ok a, t)) × (later a t ≡ (ok b, s'))
    go (err text, t) h =
        let failed : ◌≡◌ {A = Result String B} (err text) (ok b) =
          ap (λ (x : Result String B × S). x.0) h in
        absurd (cc)
    go (ok a, t) h = (a, t, refl, h)

pub >>=-at :
    {S A B : Type 0} (action : Action S A) (later : A → Action S B) (s t : S) (a : A)
    → action s ≡ (ok a, t)
    → (action >>= later) s ≡ later a t
>>=-at {S = S} {A = A} action later s t a h =
    ap (λ (r : Result String A × S). continue_with r later) h

pub throw-never : {S A : Type 0} (text : String) (s s' : S) (a : A) → throw text s ≡ (ok a, s') → ⊥
throw-never {S = S} {A = A} text s s' a h =
    let failed : ◌≡◌ {A = Result String A} (err text) (ok a) =
      ap (λ (x : Result String A × S). x.0) h in
    absurd (cc)

-- What the action leaves as it was, however it ends.
pub record Preserves {S F A : Type 0} (view : S → F) (action : Action S A) : Type 0 where
  pub preserved : (s : S) → view (action s).1 ≡ view s

module _ {S F : Type 0} (view : S → F) where
  pub settled-Preserves : {A : Type 0} (r : Result String A) → Preserves view (settled r)
  settled-Preserves r = record { preserved = λ s. refl }

  pub reading-Preserves : {A : Type 0} (read : S → Result String A) → Preserves view (reading read)
  reading-Preserves read = record { preserved = λ s. refl }

  pub done-Preserves : {A : Type 0} (a : A) → Preserves view (done a)
  done-Preserves a = record { preserved = λ s. refl }

  pub throw-Preserves : {A : Type 0} (text : String) → Preserves view (throw {S = S} {A = A} text)
  throw-Preserves text = record { preserved = λ s. refl }

  pub >>=-Preserves :
      {A B : Type 0} (action : Action S A) (later : A → Action S B)
      → Preserves view action
      → ((a : A) → Preserves view (later a))
      → Preserves view (action >>= later)
  >>=-Preserves {A = A} action later kept l = record {
    preserved = λ s. go s (action s) (kept.preserved s);
  }
    where
      go :
          (s : S) (r : Result String A × S)
          → view r.1 ≡ view s
          → view (continue_with r later).1 ≡ view s
      go s (err text, t) same = same
      go s (ok a, t) same = (l a).preserved t ∙ same

  pub catch-Preserves :
      {A : Type 0} (action : Action S A) (handler : String → Action S A)
      → Preserves view action
      → ((text : String) → Preserves view (handler text))
      → Preserves view (catch action handler)
  catch-Preserves {A = A} action handler kept l = record {
    preserved = λ s. go s (action s) (kept.preserved s);
  }
    where
      go :
          (s : S) (r : Result String A × S)
          → view r.1 ≡ view s
          → view (caught_as handler (λ a. a) r).1 ≡ view s
      go s (err text, t) same = (l text).preserved t ∙ same
      go s (ok a, t) same = same
