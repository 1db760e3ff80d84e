-- ===== src/Database/Memory/Selection.antt =====
-- What the queries of the database in memory return.
use cppadmin.Base.{
  Bytes, Bool, true, false, List, [], ◌∷◌, ◌++◌, Option, none, some, ◌≡◌, ◌≢◌, ◌↔◌, All, arith,
  refl, bytes_beq, bytes_beq_iff, bytes_beq_refl, null, Bool-cases, inl, inr, sym, ◌∙◌, ◌⊎◌,
  contains, bytes_eq,
}
use cppadmin.Database.Schema.{Row}
use cppadmin.Database.Memory.{
  Rows, Links, lookup, is_linked, keep, select, targets, rows_of, rows_of_all,
}

module _ (p : Row → Bool) where
  All-keep :
      (P : Row → Type 0) (o : Option Row) (rest : List Row)
      → ((r : Row) → o ≡ some r → p r ≡ true → P r)
      → All P rest
      → All P (keep p o rest)
  All-keep P none rest h k = k
  All-keep P (some r) rest h k = elim (Bool-cases (p r)) [
    | inl e ↦ rw e (h r refl e, k)
    | inr e ↦ rw e k
  ]

  module _ (m : Rows) where
    abbrev pub Selected : Row → Type 0
    Selected r = (p r ≡ true) × ((i : Bytes) × (lookup i m ≡ some r))

    pub select_sound : (keys : Rows) → All Selected (select p m keys)
    unfolding select
    select_sound [] = tt
    select_sound ((j, _) ∷ keys) =
        All-keep Selected (lookup j m) (select p m keys) (λ r e h. (h, (j, e))) (select_sound keys)

    pub select_complete :
        (keys : Rows) (i : Bytes) (r : Row)
        → lookup i keys ≢ none
        → lookup i m ≡ some r
        → p r ≡ true
        → select p m keys ≢ []
    unfolding select lookup
    select_complete [] i r k e h = ground arith
    select_complete ((j, q) ∷ keys) i r k e h =
        ground (arith, select_complete keys i r, bytes_beq_iff j i)

    abbrev pub Joined : List Bytes → Row → Type 0
    Joined keys r = (j : Bytes) × (contains keys j ≡ true) × (lookup j m ≡ some r) × (p r ≡ true)

    All-Joined :
        (j : Bytes) (keys : List Bytes) (rs : List Row)
        → All (Joined keys) rs
        → All (Joined (j ∷ keys)) rs
    unfolding contains
    All-Joined j keys [] h = tt
    All-Joined j keys (r ∷ rs) ((i, c, e, q), h) =
        ((i, ground (arith, bytes_beq_iff j i), e, q), All-Joined j keys rs h)

    pub rows_of_sound : (keys : List Bytes) → All (Joined keys) (rows_of p m keys)
    unfolding rows_of contains
    rows_of_sound [] = tt
    rows_of_sound (j ∷ keys) =
        All-keep (Joined (j ∷ keys)) (lookup j m) (rows_of p m keys)
          (λ r e h. (j, rw bytes_beq_refl refl, e, h))
          (All-Joined j keys (rows_of p m keys) (rows_of_sound keys))

    pub rows_of_complete :
        (keys : List Bytes) (j : Bytes) (r : Row)
        → contains keys j ≡ true
        → lookup j m ≡ some r
        → p r ≡ true
        → null (rows_of p m keys) ≡ false
    unfolding rows_of contains
    rows_of_complete [] j r c e h = ground arith
    rows_of_complete (i ∷ keys) j r c e h =
        ground (arith, bytes_beq_iff i j, rows_of_complete keys j r)

    pub rows_of-some :
        (keys : List Bytes)
        → null (rows_of p m keys) ≡ false
        → (j : Bytes) × (r : Row) × (contains keys j ≡ true) × (lookup j m ≡ some r) × (p r ≡ true)
    rows_of-some keys h = first (rows_of p m keys) h (rows_of_sound keys)
      where
        first :
            (rs : List Row)
            → null rs ≡ false
            → All (Joined keys) rs
            → (j : Bytes) × (r : Row) × (contains keys j ≡ true)
              × (lookup j m ≡ some r)
              × (p r ≡ true)
        first [] e _ = absurd (ground arith)
        first (r ∷ rs) _ ((j, c, e, q), _) = (j, r, c, e, q)

pub contains-targets : (a b : Bytes) (l : Links) → contains (targets a l) b ≡ is_linked a b l
unfolding contains targets is_linked
contains-targets a b [] = refl
contains-targets a b ((x, y) ∷ l) = ground (arith, contains-targets a b l)

null-append :
    (xs ys : List Row) → (null (xs ++ ys) ≡ false) ↔ ((null xs ≡ false) ⊎ (null ys ≡ false))
null-append [] ys = ground arith
null-append (x ∷ xs) ys = ground arith

module _ (p : Row → Bool) (m : Rows) (l : Links) where
  -- A row that passes the test and is linked to one of the keys.
  abbrev pub Reached : List Bytes → Type 0
  Reached keys =
      (i : Bytes) × (j : Bytes) × (r : Row) × (contains keys i ≡ true)
      × (is_linked i j l ≡ true)
      × (lookup j m ≡ some r)
      × (p r ≡ true)

  pub rows_of_all_some : (keys : List Bytes) → null (rows_of_all p m l keys) ≡ false → Reached keys
  unfolding rows_of_all contains
  rows_of_all_some [] h = absurd (ground arith)
  rows_of_all_some (i ∷ keys) h = elim ((null-append _ _).0 h) [
    | inl k ↦
        let (j, r, c, e, q) = rows_of-some p m (targets i l) k in
        (i, j, r, rw bytes_beq_refl refl, sym (contains-targets i j l) ∙ c, e, q)
    | inr k ↦
        let (i', j, r, c, d, e, q) = rows_of_all_some keys k in
        (i', j, r, ground (arith, bytes_beq_iff i i'), d, e, q)
  ]

  pub rows_of_all_complete :
      (keys : List Bytes) → Reached keys → null (rows_of_all p m l keys) ≡ false
  unfolding rows_of_all contains
  rows_of_all_complete [] (i, j, r, c, d, e, q) = ground arith
  rows_of_all_complete (k ∷ keys) (i, j, r, c, d, e, q) =
      (null-append (rows_of p m (targets k l)) (rows_of_all p m l keys)).1
        (elim (Bool-cases (bytes_beq k i)) [
          | inl same ↦ inl (
              rows_of_complete p m (targets k l) j r
                (contains-targets k j l ∙ (rw ((bytes_beq_iff k i).0 same) d)) e q)
          | inr other ↦ inr (rows_of_all_complete keys (i, j, r, ground arith, d, e, q))
        ])
