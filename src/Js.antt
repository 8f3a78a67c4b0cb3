-- ===== src/Js.antt =====
-- The JavaScript values that the gate engine computes with (src/core/gates/engine.ts). The numbers and
-- the built-in functions are a record of operations; `JsLaws` states what the proofs use of them.
pub mod Sample
use fluxaos.Prelude.{
  String, ◌≡◌, Bool, true, false, ◌&&◌, ◌||◌, Option, none, some, List, [], ◌∷◌, str_eq,
  if◌then◌else◌,
}

mutual
  pub data Value (N : Type 0) : Type 0 where
    undef : Value N
    null : Value N
    fn : Value N
    bool : Bool → Value N
    num : N → Value N
    str : String → Value N
    arr : Items N → Value N
    obj : Fields N → Value N

  pub data Items (N : Type 0) : Type 0 where
    nil : Items N
    cons : Value N → Items N → Items N

  pub data Fields (N : Type 0) : Type 0 where
    end : Fields N
    field : String → Value N → Fields N → Fields N

-- What the engine takes from the language: `===` and `<` of numbers, NaN, `Number(s)`, `new RegExp(s)`
-- (`none` where it throws), JSON.stringify as it reads in a template, and what an object or an array
-- answers for a name that is no field of its own (`constructor`, `length`, an index).
pub record Js (N : Type 0) : Type 0 where
  pub num_eq : N → N → Bool
  pub num_lt : N → N → Bool
  pub nan : N
  pub is_nan : N → Bool
  pub number : String → N
  pub reg_exp : String → Option (String → Bool)
  pub stringify : Value N → String
  pub inherited : String → Value N
  pub array_member : Items N → String → Value N

pub record JsLaws {N : Type 0} (js : Js N) : Type 0 where
  pub eq_symm : (a b : N) → js.num_eq a b ≡ js.num_eq b a
  pub nan_lt : (a : N) → js.num_lt js.nan a ≡ false
  pub lt_nan : (a : N) → js.num_lt a js.nan ≡ false
  pub lt_asymm : (a b : N) → js.num_lt a b ≡ true → js.num_lt b a ≡ false

module _ {N : Type 0} where
  abbrev pub items : Items N → List (Value N)
  items nil = []
  items (cons v vs) = v ∷ items vs

  unfoldable pub own : String → Fields N → Option (Value N)
  own key end = none
  own key (field k v fs) = if str_eq k key then some v else own key fs

  -- `typeof v === 'object'` and `v != null`
  abbrev pub is_object : Value N → Bool
  is_object (arr vs) = true
  is_object (obj fs) = true
  is_object _ = false

abbrev pub or_inherited : {N : Type 0} → Js N → String → Option (Value N) → Value N
or_inherited js key none = js.inherited key
or_inherited js key (some v) = v

-- `v[key]`
unfoldable pub member : {N : Type 0} → Js N → Value N → String → Value N
unfolding own
member js (arr vs) key = js.array_member vs key
member js (obj fs) key = or_inherited js key (own key fs)
member js _ key = undef

abbrev pub bool_eq : Bool → Bool → Bool
bool_eq true b = b
bool_eq false true = false
bool_eq false false = true

-- `a === b`. An array or an object is equal to itself only, and the two sides never share one: the
-- expected value is read from the rule, the actual one from the context.
unfoldable pub strict_equals : {N : Type 0} → Js N → Value N → Value N → Bool
strict_equals js undef undef = true
strict_equals js null null = true
strict_equals js (bool a) (bool b) = bool_eq a b
strict_equals js (num a) (num b) = js.num_eq a b
strict_equals js (str s) (str t) = str_eq s t
strict_equals js _ _ = false

-- The comparison of `Array.prototype.includes`, which finds NaN.
unfoldable pub same_value_zero : {N : Type 0} → Js N → Value N → Value N → Bool
unfolding strict_equals
same_value_zero js (num a) (num b) = js.num_eq a b || js.is_nan a && js.is_nan b
same_value_zero js a b = strict_equals js a b
