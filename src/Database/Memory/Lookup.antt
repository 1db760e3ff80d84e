-- ===== src/Database/Memory/Lookup.antt =====
-- The laws of the association lists.
use cppadmin.Base.{
  Bytes, true, false, List, [], ◌∷◌, Option, none, some, ◌≡◌, ◌↔◌, ◌&&◌, arith, refl, bytes_beq,
  bytes_beq_iff, if◌then◌else◌, fun_ext, ap,
}
use mathlib.Core.Option
use cppadmin.Database.Schema.{
  Column, id, text, Value, Row, column_beq_iff, is_text, has_column, assign,
}
use cppadmin.Database.Memory.{
  Rows, Links, keyed, lookup, remove, modify, is_linked, unlink, unlink_all,
}

pub is_text_iff : (o : Option Value) (v : Bytes) → (is_text o v ≡ true) ↔ (o ≡ some (text v))
unfolding is_text
is_text_iff none v = ground arith
is_text_iff (some (text w)) v = ground (arith, bytes_beq_iff w v)
is_text_iff (some _) v = ground arith

pub keyed_same : (i : Bytes) (r : Row) → r id ≡ some (text i) → keyed i r ≡ r
keyed_same i r h = fun_ext λ k. ground (arith, h, column_beq_iff k id)

pub lookup-id : (i : Bytes) (m : Rows) (r : Row) → lookup i m ≡ some r → r id ≡ some (text i)
unfolding lookup
lookup-id i [] r h = cc
lookup-id i ((j, q) ∷ m) r h = ground (arith, lookup-id i m r, column_beq_iff id id)

pub lookup-remove :
    (i j : Bytes) (m : Rows) → lookup j (remove i m) ≡ (if bytes_beq i j then none else lookup j m)
unfolding lookup remove
lookup-remove i j [] = ground arith
lookup-remove i j ((k, r) ∷ m) =
    ground (arith, lookup-remove i j m, bytes_beq_iff k i, bytes_beq_iff k j, bytes_beq_iff i j)

pub is_linked-unlink :
    (a b x y : Bytes) (m : Links)
    → is_linked x y (unlink a b m)
      ≡ (if bytes_beq a x && bytes_beq b y then false else is_linked x y m)
unfolding is_linked unlink
is_linked-unlink a b x y [] = ground arith
is_linked-unlink a b x y ((p, q) ∷ m) = ground (
  arith,
  is_linked-unlink a b x y m,
  bytes_beq_iff p a,
  bytes_beq_iff q b,
  bytes_beq_iff p x,
  bytes_beq_iff q y,
  bytes_beq_iff a x,
  bytes_beq_iff b y,
)

pub is_linked-unlink_all :
    (a x y : Bytes) (m : Links)
    → is_linked x y (unlink_all a m) ≡ (if bytes_beq a x then false else is_linked x y m)
unfolding is_linked unlink_all
is_linked-unlink_all a x y [] = ground arith
is_linked-unlink_all a x y ((p, q) ∷ m) = ground (
  arith,
  is_linked-unlink_all a x y m,
  bytes_beq_iff p a,
  bytes_beq_iff p x,
  bytes_beq_iff q y,
  bytes_beq_iff a x,
)

-- A change of a row that leaves its key alone.
abbrev KeepsKey : (Row → Row) → Type 0
KeepsKey f = (i : Bytes) (r : Row) → keyed i (f r) ≡ f (keyed i r)

pub lookup-modify :
    (i j : Bytes) (f : Row → Row) (m : Rows)
    → KeepsKey f
    → lookup j (modify i f m) ≡ (if bytes_beq i j then Option.map f (lookup j m) else lookup j m)
unfolding lookup modify
lookup-modify i j f [] h = ground arith
lookup-modify i j f ((k, r) ∷ m) h =
    ground (
      arith,
      h j r,
      lookup-modify i j f m h,
      bytes_beq_iff k i,
      bytes_beq_iff k j,
      bytes_beq_iff i j,
    )

pub assign-KeepsKey :
    (cs : List Column) (vs : List (Option Value))
    → has_column id cs ≡ false
    → KeepsKey (assign cs vs)
unfolding assign has_column
assign-KeepsKey [] vs h i r = refl
assign-KeepsKey (c ∷ cs) [] h i r = refl
assign-KeepsKey (c ∷ cs) (v ∷ vs) h i r = fun_ext λ k. ground (
  arith,
  column_beq_iff k id,
  column_beq_iff k c,
  column_beq_iff id c,
  ap (λ (q : Row). q k) (assign-KeepsKey cs vs (ground arith) i r),
)
