-- ===== src/Models/Field.antt =====
-- The pieces that the four model classes are made of: a nullable field is read from a row, is sent
-- to the mapper, and is put into a JSON object, each only if it is there.
use cppadmin.Base.{
  ℕ, String, Bytes, bytes, Bool, false, List, [], ◌∷◌, Option, none, some, map, ◌≡◌, refl, arith,
  if◌then◌else◌,
}
use mathlib.Core.Option
use cppadmin.Database.Schema.{
  Column, Value, text, number, flag, Row, column_beq, assign, has_column,
}

-- `if (!r["c"].isNull()) x_ = r["c"].as<T>()`; a column only holds values of its own type.
abbrev pub text_of : Option Value → Option Bytes
text_of (some (text v)) = some v
text_of _ = none

abbrev pub number_of : Option Value → Option ℕ
number_of (some (number v)) = some v
number_of _ = none

abbrev pub flag_of : Option Value → Option Bool
flag_of (some (flag v)) = some v
flag_of _ = none

-- getValueOfX() of a text
abbrev pub value_of : Option Bytes → Bytes
value_of none = []
value_of (some v) = v

-- getValueOfBlocked()
abbrev pub flag_value_of : Option Bool → Bool
flag_value_of none = false
flag_value_of (some b) = b

-- The first of two that is there.
abbrev pub or_else : {A : Type 0} → Option A → Option A → Option A
or_else none b = b
or_else (some a) b = some a

pub or_else_self : {A : Type 0} (o : Option A) → or_else o o ≡ o
or_else_self none = refl
or_else_self (some a) = refl

module _ {A : Type 0} where
  -- `if (x_) cols.push_back("c");`
  abbrev pub column_if : Option A → Column → List Column → List Column
  column_if none c cs = cs
  column_if (some x) c cs = c ∷ cs

  -- `if (x_) binder << *x_;`
  abbrev pub value_if : (A → Value) → Option A → List Value → List Value
  value_if f none vs = vs
  value_if f (some x) vs = f x ∷ vs

  -- `if (x_) j["k"] = *x_;`
  abbrev pub field_if :
      (A → Value) → Option A → String → List (Bytes × Value) → List (Bytes × Value)
  field_if f none k j = j
  field_if f (some x) k j = (bytes k, f x) ∷ j

  pub has_column-column_if :
      (o : Option A) (k c : Column) (cs : List Column)
      → column_beq k c ≡ false
      → has_column k (column_if o c cs) ≡ has_column k cs
  unfolding has_column
  has_column-column_if none k c cs h = refl
  has_column-column_if (some x) k c cs h = rw h refl

  pub assign-column_if :
      (f : A → Value) (o : Option A) (c : Column) (cs : List Column) (vs : List Value) (r : Row)
      (k : Column)
      → assign (column_if o c cs) (map some (value_if f o vs)) r k ≡ (
          if column_beq k c
          then or_else (Option.map f o) (assign cs (map some vs) r k)
          else assign cs (map some vs) r k)
  unfolding assign
  assign-column_if f none c cs vs r k = ground arith
  assign-column_if f (some x) c cs vs r k = refl

pub text_of-map : (o : Option Bytes) → text_of (Option.map text o) ≡ o
text_of-map none = refl
text_of-map (some x) = refl

pub number_of-map : (o : Option ℕ) → number_of (Option.map number o) ≡ o
number_of-map none = refl
number_of-map (some x) = refl

pub flag_of-map : (o : Option Bool) → flag_of (Option.map flag o) ≡ o
flag_of-map none = refl
flag_of-map (some x) = refl

pub text_of-or_else :
    (o : Option Bytes) (v : Option Value)
    → text_of (or_else (Option.map text o) v) ≡ or_else o (text_of v)
text_of-or_else none v = refl
text_of-or_else (some x) v = refl

pub number_of-or_else :
    (o : Option ℕ) (v : Option Value)
    → number_of (or_else (Option.map number o) v) ≡ or_else o (number_of v)
number_of-or_else none v = refl
number_of-or_else (some x) v = refl

pub flag_of-or_else :
    (o : Option Bool) (v : Option Value)
    → flag_of (or_else (Option.map flag o) v) ≡ or_else o (flag_of v)
flag_of-or_else none v = refl
flag_of-or_else (some x) v = refl

pub ruleset of_map = (text_of-map, number_of-map, flag_of-map)

pub ruleset of_or_value = (text_of-or_else, number_of-or_else, flag_of-or_else)
