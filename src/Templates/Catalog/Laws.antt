-- ===== src/Templates/Catalog/Laws.antt =====
-- What `list` returns and remembers, in memory and across a restart.
use cppadmin.Base.{
  ℕ, ◌+◌, ◌-◌, ◌<◌, ◌≤◌, Bytes, true, false, not, ◌&&◌, ltb, List, [], ◌∷◌, null, ◌≡◌, ◌≢◌, refl,
  ap, ◌∙◌, sym, subst, arith, Bool-cases, inl, inr,
}
use cppadmin.Templates.Slug.{Item}
use cppadmin.Templates.Store.{Response}
use cppadmin.Templates.Curated.{curated}
use cppadmin.Templates.Catalog.{
  Json, Catalog, catalog_ttl, tree_url, remember, read_disk_cache, write_disk_cache, fetched,
  after_fetch, list,
}

pub null_lem : (xs : List Item) → null xs ≡ false → xs ≢ []
null_lem [] p q = absurd (ground arith)
null_lem (x ∷ xs) p q = absurd (ground arith)

pub null-cons : (xs : List Item) → xs ≢ [] → null xs ≡ false
null-cons [] p = absurd (p refl)
null-cons (x ∷ xs) p = refl

module _ (json : Json) (sort : List Item → List Item) (http : Bytes → Response) where
  -- The three ways of `list`.
  list-memo :
      (now : ℕ) (c : Catalog)
      → (not (null c.memo) && ltb (now - c.memo_at) catalog_ttl) ≡ true
      → list json sort http now c ≡ (c.memo, c)
  unfolding list
  list-memo now c p = rw p refl

  pub list-disk :
      (now : ℕ) (c : Catalog)
      → (not (null c.memo) && ltb (now - c.memo_at) catalog_ttl) ≡ false
      → null (read_disk_cache json c) ≡ false
      → list json sort http now c
        ≡ (read_disk_cache json c, remember (read_disk_cache json c) now c)
  unfolding list
  list-disk now c p q = rw (p, q) refl

  pub list-fetch :
      (now : ℕ) (c : Catalog)
      → (not (null c.memo) && ltb (now - c.memo_at) catalog_ttl) ≡ false
      → null (read_disk_cache json c) ≡ true
      → list json sort http now c ≡ after_fetch json sort (fetched json sort (http tree_url)) now c
  unfolding list
  list-fetch now c p q = rw (p, q) refl

  -- A list that is not empty and is the one remembered.
  abbrev IsRemembered : List Item × Catalog → Type 0
  IsRemembered (items, c) = (items ≢ []) × (c.memo ≡ items)

  after_fetch-IsRemembered :
      (items : List Item) (now : ℕ) (c : Catalog) → IsRemembered (after_fetch json sort items now c)
  unfolding write_disk_cache curated
  after_fetch-IsRemembered [] now c = (λ h. absurd (ground arith), refl)
  after_fetch-IsRemembered (x ∷ items) now c = elim (Bool-cases c.is_writable) [
    | inl can ↦ (λ h. absurd (ground arith), rw can refl)
    | inr cannot ↦ (λ h. absurd (ground arith), rw cannot refl)
  ]

  list-IsRemembered : (now : ℕ) (c : Catalog) → IsRemembered (list json sort http now c)
  list-IsRemembered now c =
      elim (Bool-cases (not (null c.memo) && ltb (now - c.memo_at) catalog_ttl)) [
        | inl fresh ↦
            subst IsRemembered (sym (list-memo now c fresh)) (null_lem c.memo (ground arith), refl)
        | inr stale ↦ elim (Bool-cases (null (read_disk_cache json c))) [
          | inr found ↦
              subst IsRemembered (sym (list-disk now c stale found)) (null_lem _ found, refl)
          | inl absent ↦
              subst IsRemembered (sym (list-fetch now c stale absent))
                (after_fetch-IsRemembered _ now c)
        ]
      ]

module _ (json : Json) (sort : List Item → List Item) (http : Bytes → Response) where
  after_fetch-memo_at :
      (items : List Item) (now : ℕ) (c : Catalog)
      → (after_fetch json sort items now c).1.memo_at ≡ now
  unfolding write_disk_cache
  after_fetch-memo_at [] now c = refl
  after_fetch-memo_at (x ∷ items) now c = elim (Bool-cases c.is_writable) [
    | inl can ↦ rw can refl
    | inr cannot ↦ rw cannot refl
  ]

  -- A list that is not taken from memory is put there with the time.
  list-memo_at :
      (now : ℕ) (c : Catalog)
      → (not (null c.memo) && ltb (now - c.memo_at) catalog_ttl) ≡ false
      → (list json sort http now c).1.memo_at ≡ now
  list-memo_at now c stale = elim (Bool-cases (null (read_disk_cache json c))) [
    | inr found ↦
        ap (λ (r : List Item × Catalog). r.1.memo_at) (list-disk json sort http now c stale found)
    | inl absent ↦
        ap (λ (r : List Item × Catalog). r.1.memo_at) (list-fetch json sort http now c stale absent)
        ∙ after_fetch-memo_at _ now c
  ]

  -- What is too old is as good as nothing.
  list-stale :
      (now : ℕ) (c : Catalog)
      → (not (null c.memo) && ltb (now - c.memo_at) catalog_ttl) ≡ false
      → list json sort http now c ≡ list json sort http now (record c { memo = [] })
  unfolding list write_disk_cache
  list-stale now c stale = rw stale refl

-- The catalogue is never empty. A list that was not in memory before is what `list` returns,
-- with nothing changed and whatever the network would answer, for six hours; from then on it is
-- as if the memory were empty.
pub list_sound :
    (json : Json) (sort : List Item → List Item) (http later_http : Bytes → Response)
    (now later : ℕ) (c : Catalog)
    → c.memo ≡ []
    → ((list json sort http now c).0 ≢ [])
      × (later < now + 21600
          → list json sort later_http later (list json sort http now c).1
            ≡ list json sort http now c)
      × (now + 21600 ≤ later
          → list json sort later_http later (list json sort http now c).1
            ≡ list json sort later_http later (record (list json sort http now c).1 { memo = [] }))
list_sound json sort http later_http now later c forgotten =
    let (some_item, kept) = list-IsRemembered json sort http now c in
    let next = (list json sort http now c).1 in
    let at : next.memo_at ≡ now = list-memo_at json sort http now c (rw forgotten refl) in
    let full = null-cons next.memo (λ h. some_item (sym kept ∙ h)) in
    (
      some_item,
      λ p.
          list-memo json sort later_http later next (ground arith)
          ∙ ap (λ items. (items, next)) kept,
      λ p. list-stale json sort later_http later next (ground arith),
    )
