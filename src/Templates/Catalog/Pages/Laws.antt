-- ===== src/Templates/Catalog/Pages/Laws.antt =====
-- The pages of a search, put together, are the search; the pinned template comes first.
use mathlib.Core.List.{Perm}
use native.Mathlib.Nat.{lt-div-mul-add}
use cppadmin.Base.{
  ℕ, ◌<◌, ◌^◌, ltb, if◌then◌else◌, zero, suc, ◌+◌, ◌-◌, ◌*◌, ◌/◌, ◌≤◌, ◌≡◌, refl, ap, ◌∙◌, sym,
  Bytes, true, false, List, [], ◌∷◌, ◌++◌, some, take, drop, length, arith, any, ◌≢◌, ◌==◌,
  bytes_eq,
}
use cppadmin.Base.Int.{ℤ, pos, negsuc}
use cppadmin.Templates.Slug.{Item}
use cppadmin.Templates.Catalog.Pages.{
  filtered, pinned, page_items, paginate, positive_or, page_count, negated,
}
use cppadmin.Templates.Catalog.Pages.Pinned.{first_slug, pinned-Perm, length-pinned}

module _ {A : Type 0} where
  drop-nil : (n : ℕ) → drop {A = A} n [] ≡ []
  drop-nil zero = refl
  drop-nil (suc n) = refl

  drop_step : (m n : ℕ) (xs : List A) → drop n (drop (suc m) xs) ≡ drop (suc (m + n)) xs
  drop_step m n [] = drop-nil n
  drop_step zero n (x ∷ xs) = let same : n ≡ 0 + n = omega arith in ap (λ k. drop k xs) same
  drop_step (suc m) n (x ∷ xs) =
      let same : suc (m + n) ≡ suc m + n = omega arith in
      drop_step m n xs ∙ ap (λ k. drop k xs) same

  drop-drop : (m n : ℕ) (xs : List A) → drop n (drop m xs) ≡ drop (m + n) xs
  drop-drop zero n xs = let same : n ≡ 0 + n = omega arith in ap (λ k. drop k xs) same
  drop-drop (suc m) n xs =
      let same : suc (m + n) ≡ suc m + n = omega arith in
      drop_step m n xs ∙ ap (λ k. drop k xs) same

  take-append-drop : (m n : ℕ) (xs : List A) → take m xs ++ take n (drop m xs) ≡ take (m + n) xs
  take-append-drop zero n xs = let same : n ≡ 0 + n = omega arith in ap (λ k. take k xs) same
  take-append-drop (suc m) zero [] =
      let same : suc m ≡ suc m + 0 = omega arith in ap (λ k. take {A = A} k []) same
  take-append-drop (suc m) (suc n) [] =
      let same : suc (m + suc n) ≡ suc m + suc n = omega arith in ap (λ k. take {A = A} k []) same
  take-append-drop (suc m) n (x ∷ xs) =
      let same : suc (m + n) ≡ suc m + n = omega arith in
      ap (λ ys. x ∷ ys) (take-append-drop m n xs) ∙ ap (λ k. take k (x ∷ xs)) same

  take-all : (n : ℕ) (xs : List A) → length xs ≤ n → take n xs ≡ xs
  take-all zero [] p = refl
  take-all zero (x ∷ xs) p = absurd (omega arith)
  take-all (suc n) [] p = refl
  take-all (suc n) (x ∷ xs) p = ap (λ ys. x ∷ ys) (take-all n xs (omega arith))

  length-take : (n : ℕ) (xs : List A) → length (take n xs) ≤ n
  length-take zero xs = omega arith
  length-take (suc n) [] = omega arith
  length-take (suc n) (x ∷ xs) = omega (arith, length-take n xs)

-- The items of so many pages, from a page on.
unfoldable pub gathered : Bytes → Bytes → ℕ → ℤ → Bytes → List Item → ℕ → List Item
gathered name category page page_size pin all zero = []
gathered name category page page_size pin all (suc count) =
    (paginate name category (pos page) page_size pin all).datas
    ++ gathered name category (suc page) page_size pin all count

gathered-take :
    (name category : Bytes) (page : ℕ) (page_size : ℤ) (pin : Bytes) (all : List Item) (count : ℕ)
    → gathered name category (suc page) page_size pin all count
      ≡ take
          (count * positive_or 12 page_size)
          (drop (page * positive_or 12 page_size) (pinned pin (filtered name category all)))
unfolding gathered paginate page_items
gathered-take name category page page_size pin all zero =
    let none_left : 0 ≡ 0 * positive_or 12 page_size = omega arith in
    ap
      (λ n.
        take n (drop (page * positive_or 12 page_size) (pinned pin (filtered name category all))))
      none_left
gathered-take name category page page_size pin all (suc count) =
    let size = positive_or 12 page_size in
    let items = pinned pin (filtered name category all) in
    let start = page * size in
    let here : (suc page - 1) * size ≡ start = ap (λ k. k * size) (omega arith) in
    let next : suc page * size ≡ start + size = omega arith in
    let more : suc count * size ≡ size + count * size = omega arith in
    ap
      (λ k.
        take size (drop k items) ++ gathered name category (suc (suc page)) page_size pin all count)
      here
    ∙ ap (λ ys. take size (drop start items) ++ ys)
        (gathered-take name category (suc page) page_size pin all count
          ∙ ap (λ n. take (count * size) (drop n items)) next
          ∙ ap (take (count * size)) (sym (drop-drop start size items)))
    ∙ take-append-drop size (count * size) (drop start items)
    ∙ ap (λ n. take n (drop start items)) (sym more)

positive_or-pos : (z : ℤ) → 1 ≤ positive_or 12 z
positive_or-pos (pos zero) = omega arith
positive_or-pos (pos (suc k)) = omega arith
positive_or-pos (negsuc k) = omega arith

quotient_up : (n s : ℕ) → 1 ≤ s → n ≤ ((n + s - 1) / s) * s
quotient_up n s p = let close = lt-div-mul-add {a = n + s - 1} {b = s} (omega arith) in omega arith

-- So many pages are announced.
abbrev pub announced : ℤ → ℕ
announced (pos n) = n
announced (negsuc n) = 0

gathered-pinned :
    (name category : Bytes) (page page_size : ℤ) (pin : Bytes) (all : List Item)
    → length (pinned pin (filtered name category all)) + positive_or 12 page_size ≤ 2 ^ 31
    → gathered name category 1 page_size pin all
        (announced (paginate name category page page_size pin all).total_pages)
      ≡ pinned pin (filtered name category all)
unfolding paginate page_items
gathered-pinned name category page page_size pin all fits =
    let size = positive_or 12 page_size in
    let items = pinned pin (filtered name category all) in
    let count = (length items + size - 1) / size in
    let start : 0 * size ≡ 0 = omega arith in
    let some_size = positive_or-pos page_size in
    let exact : ltb (length items + size - 1) (2 ^ 31) ≡ true = ground arith in
    ap
      (λ b. gathered name category 1 page_size pin all (
        announced (if b then pos count else negated ((2 ^ 32 - (length items + size - 1)) / size))))
      exact
    ∙ gathered-take name category 0 page_size pin all count
    ∙ ap (λ n. take (count * size) (drop n items)) start
    ∙ take-all (count * size) items (quotient_up (length items) size some_size)

announced-negated : (n : ℕ) → announced (negated n) ≡ 0
announced-negated zero = refl
announced-negated (suc n) = refl

-- With a page size that is an `int`, a sum of 2 ^ 31 or more announces no page.
page_count_overflow :
    (total size : ℕ)
    → total ≤ 2 ^ 31
    → size < 2 ^ 31
    → 1 ≤ size
    → 2 ^ 31 < total + size
    → announced (page_count total size) ≡ 0
page_count_overflow total size p q r s =
    let over : ltb (total + size - 1) (2 ^ 31) ≡ false = ground arith in
    ap
      (λ b. announced (
        if b
        then pos ((total + size - 1) / size)
        else negated ((2 ^ 32 - (total + size - 1)) / size)))
      over
    ∙ announced-negated ((2 ^ 32 - (total + size - 1)) / size)

page_bound :
    (name category : Bytes) (page page_size : ℤ) (pin : Bytes) (all : List Item)
    → length (paginate name category page page_size pin all).datas
      ≤ (paginate name category page page_size pin all).page_size
unfolding paginate page_items
page_bound name category page page_size pin all = length-take (positive_or 12 page_size) _

-- For any search, page, page size and pinned slug, where the number of items found and the page
-- size (12 if none is given) are together at most 2 ^ 31, so that the `int` that counts the pages
-- does not overflow: the pages from the first to the last that is announced hold, together, each
-- item of the search exactly as often as the search does; if the search has an item with the
-- pinned slug, such an item comes first on them; and no page is longer than its size.
pub paginate_complete :
    (name category : Bytes) (page page_size : ℤ) (pin : Bytes) (all : List Item)
    → length (filtered name category all) + positive_or 12 page_size ≤ 2 ^ 31
    → Perm
        (gathered name category 1 page_size pin all
          (announced (paginate name category page page_size pin all).total_pages))
        (filtered name category all)
      × ((pin ≢ []
            → any (λ t. t.slug == pin) (filtered name category all) ≡ true
            → first_slug (
                gathered name category 1 page_size pin all
                  (announced (paginate name category page page_size pin all).total_pages))
              ≡ some pin)
          × (length (paginate name category page page_size pin all).datas
              ≤ (paginate name category page page_size pin all).page_size))
paginate_complete name category page page_size pin all fits =
    let (perm, first) = pinned-Perm pin (filtered name category all) in
    let same = length-pinned pin (filtered name category all) in
    rw (gathered-pinned name category page page_size pin all (omega (arith, same, fits)))
      (perm, (first, page_bound name category page page_size pin all))
