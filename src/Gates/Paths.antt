-- ===== src/Gates/Paths.antt =====
-- src/core/gates/engine.ts: how `resolveField` follows a dotted path, and what the operators decide.
use Prim.Native.Char.{Char}
use fluxaos.Prelude.{
  ◌&&◌, String, ◌≡◌, refl, sym, false, not, List, [], ◌∷◌, ◌++◌, arith, Bool-cases, inl, inr, split,
  split-append, ◌+s◌, eq_iff,
}
use fluxaos.Js.{
  Value, undef, null, fn, bool, num, str, arr, obj, Js, JsLaws, is_object, member, strict_equals,
}
use fluxaos.Gates.Rules.{equals, not_equals, less_than, greater_than}
use fluxaos.Gates.Operators.{resolve_parts, resolve_field, loose_equals, to_number, apply_operator}

abbrev pub dot : Char
dot = "."

module _ {N : Type 0} (js : Js N) where
  resolve_parts-undef : (parts : List String) → resolve_parts js undef parts ≡ undef
  unfolding resolve_parts
  resolve_parts-undef [] = refl
  resolve_parts-undef (part ∷ parts) = refl

  resolve_parts-append :
      (v : Value N) (xs ys : List String)
      → resolve_parts js v (xs ++ ys) ≡ resolve_parts js (resolve_parts js v xs) ys
  unfolding resolve_parts
  resolve_parts-append v [] ys = refl
  resolve_parts-append v (x ∷ xs) ys = elim (Bool-cases (is_object v)) [
    | inl e ↦ rw (e, resolve_parts) (resolve_parts-append (member js v x) xs ys)
    | inr e ↦ rw (e, resolve_parts) (sym (resolve_parts-undef ys))
  ]

  -- A dotted path is followed one part after the other: `p.q` is `q` of what `p` leads to.
  resolve_field-append :
      (p q : String) (context : Value N)
      → resolve_field js (p +s String.◌∷◌ dot q) context
        ≡ resolve_field js q (resolve_field js p context)
  unfolding resolve_field
  resolve_field-append p q context =
      rw (split-append dot p q) (resolve_parts-append context (split p b'.') (split q b'.'))

  strict_equals_comm : JsLaws js → (a b : Value N) → strict_equals js a b ≡ strict_equals js b a
  unfolding strict_equals
  strict_equals_comm laws undef undef = refl
  strict_equals_comm laws undef _ = refl
  strict_equals_comm laws null null = refl
  strict_equals_comm laws null _ = refl
  strict_equals_comm laws fn fn = refl
  strict_equals_comm laws fn _ = refl
  strict_equals_comm laws (bool a) (bool b) = ground arith
  strict_equals_comm laws (bool a) _ = refl
  strict_equals_comm laws (num a) (num b) = laws.eq_symm a b
  strict_equals_comm laws (num a) _ = refl
  strict_equals_comm laws (str s) (str t) = ground (arith, eq_iff s t, eq_iff t s)
  strict_equals_comm laws (str s) _ = refl
  strict_equals_comm laws (arr s) undef = refl
  strict_equals_comm laws (arr s) _ = refl
  strict_equals_comm laws (obj s) undef = refl
  strict_equals_comm laws (obj s) _ = refl

  loose_equals_comm : JsLaws js → (a b : Value N) → loose_equals js a b ≡ loose_equals js b a
  unfolding loose_equals
  loose_equals_comm laws (num a) (str s) = laws.eq_symm a (js.number s)
  loose_equals_comm laws (num a) (num b) = strict_equals_comm laws (num a) (num b)
  loose_equals_comm laws (num a) b = strict_equals_comm laws (num a) b
  loose_equals_comm laws (str s) (num b) = laws.eq_symm (js.number s) b
  loose_equals_comm laws (str s) b = strict_equals_comm laws (str s) b
  loose_equals_comm laws undef undef = strict_equals_comm laws undef undef
  loose_equals_comm laws undef b = strict_equals_comm laws undef b
  loose_equals_comm laws null undef = strict_equals_comm laws null undef
  loose_equals_comm laws null b = strict_equals_comm laws null b
  loose_equals_comm laws fn undef = strict_equals_comm laws fn undef
  loose_equals_comm laws fn b = strict_equals_comm laws fn b
  loose_equals_comm laws (bool x) undef = strict_equals_comm laws (bool x) undef
  loose_equals_comm laws (bool x) b = strict_equals_comm laws (bool x) b
  loose_equals_comm laws (arr x) undef = strict_equals_comm laws (arr x) undef
  loose_equals_comm laws (arr x) b = strict_equals_comm laws (arr x) b
  loose_equals_comm laws (obj x) undef = strict_equals_comm laws (obj x) undef
  loose_equals_comm laws (obj x) b = strict_equals_comm laws (obj x) b

  -- The value is no number, neither by type nor as a text.
  abbrev pub OperatorLaws : Value N → Value N → Type 0
  OperatorLaws a b =
      (apply_operator js equals a b ≡ apply_operator js equals b a)
      × (apply_operator js not_equals a b ≡ not (apply_operator js equals a b))
      × ((apply_operator js less_than a b && apply_operator js greater_than a b) ≡ false)
      × (apply_operator js less_than a b ≡ apply_operator js greater_than b a)
      × (apply_operator js less_than undef b ≡ false)
      × (apply_operator js greater_than undef b ≡ false)

  -- `equals` does not depend on the order of its sides and `not_equals` is its negation; the two numeric
  -- comparisons never both hold, each is the other with its sides exchanged, and neither holds of a
  -- field that is not there.
  apply_operator-laws : JsLaws js → (a b : Value N) → OperatorLaws a b
  unfolding apply_operator to_number
  apply_operator-laws laws a b = (
    loose_equals_comm laws a b,
    refl,
    ground (arith, laws.lt_asymm (to_number js a) (to_number js b)),
    refl,
    laws.nan_lt _,
    laws.lt_nan _,
  )
