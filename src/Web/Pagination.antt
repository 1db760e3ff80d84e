-- ===== src/Web/Pagination.antt =====
-- include/helpers/Pagination.h. The rounding up of a quotient of `double`s is exact for the
-- numbers that an `int` holds. A total, which is a count, is natural, and so is the size of an offset.
use cppadmin.Base.{
  ℕ, zero, suc, ◌+◌, ◌-◌, ◌*◌, ◌/◌, ◌≤◌, ◌≡◌, min, max, Bool, true, false, List, [], ◌∷◌, ◌++◌, All,
  ltb, leb, if◌then◌else◌, arith, Bool-cases, inl, inr,
}
use cppadmin.Base.Int.{ℤ, pos, negsuc}

pub record PaginateMeta : Type 0 where
  pub total : ℕ
  pub page : ℕ
  pub page_size : ℕ
  pub total_pages : ℕ
  pub has_prev : Bool
  pub has_next : Bool

-- std::max(1, page)
abbrev pub at_least_one : ℤ → ℕ
at_least_one (pos n) = max 1 n
at_least_one (negsuc n) = 1

-- (pageSize > 0) ? pageSize : 10
abbrev pub size_or_ten : ℤ → ℕ
size_or_ten (pos zero) = 10
size_or_ten (pos (suc n)) = suc n
size_or_ten (negsuc n) = 10

-- std::ceil((double)total / size)
abbrev pub quotient_up : ℕ → ℕ → ℕ
quotient_up total size = (total + (size - 1)) / size

abbrev pub paginate : ℕ → ℕ → ℕ → ℕ → PaginateMeta
paginate total page size total_pages = record {
  total = total;
  page = min page total_pages;
  page_size = size;
  total_pages = total_pages;
  has_prev = ltb 1 (min page total_pages);
  has_next = ltb (min page total_pages) total_pages;
}

unfoldable pub make_paginate_meta : ℕ → ℤ → ℤ → PaginateMeta
make_paginate_meta total page page_size =
    paginate total (at_least_one page) (size_or_ten page_size)
      (max 1 (quotient_up total (size_or_ten page_size)))

unfoldable pub page_offset : ℤ → ℕ → ℕ
page_offset page page_size = (at_least_one page - 1) * page_size

-- for (int i = lo; …) nums.push_back(i); over `count` numbers.
unfoldable pub range : ℕ → ℕ → List ℤ
range lo zero = []
range lo (suc count) = pos lo ∷ range (suc lo) count

-- -1
abbrev pub ellipsis : ℤ
ellipsis = negsuc 0

abbrev pub ellipsis_if : Bool → List ℤ → List ℤ
ellipsis_if true nums = ellipsis ∷ nums
ellipsis_if false nums = nums

unfoldable pub window : ℕ → ℕ → List ℤ
window lo hi = range lo (suc hi - lo)

unfoldable pub page_numbers : PaginateMeta → List ℤ
page_numbers m =
    if leb m.total_pages 7
    then range 1 m.total_pages
    else pos 1
      ∷ ellipsis_if (ltb 4 m.page) (
          window (max 2 (m.page - 2)) (min (m.total_pages - 1) (m.page + 2))
          ++ ellipsis_if (ltb m.page (m.total_pages - 3)) (pos m.total_pages ∷ []))

-- A page that there is, or the ellipsis.
abbrev pub IsLink : ℕ → ℤ → Type 0
IsLink total_pages (pos n) = (1 ≤ n) × (n ≤ total_pages)
IsLink total_pages (negsuc n) = n ≡ 0

range-IsLink : (t lo n : ℕ) → 1 ≤ lo → lo + n ≤ suc t → All (IsLink t) (range lo n)
unfolding range
range-IsLink t lo zero p q = tt
range-IsLink t lo (suc n) p q =
    ((p, omega arith), range-IsLink t (suc lo) n (omega arith) (omega arith))

All-append : (t : ℕ) (s r : List ℤ) → All (IsLink t) s → All (IsLink t) r → All (IsLink t) (s ++ r)
All-append t [] r p q = q
All-append t (x ∷ s) r (n, p) q = (n, All-append t s r p q)

All-ellipsis_if :
    (t : ℕ) (b : Bool) (s : List ℤ) → All (IsLink t) s → All (IsLink t) (ellipsis_if b s)
All-ellipsis_if t true s p = (omega arith, p)
All-ellipsis_if t false s p = p

page_numbers-IsLink :
    (m : PaginateMeta)
    → 1 ≤ m.total_pages
    → m.page ≤ m.total_pages
    → All (IsLink m.total_pages) (page_numbers m)
unfolding page_numbers window
page_numbers-IsLink m p q =
    let t = m.total_pages in
    let lo = max 2 (m.page - 2) in
    let hi = min (t - 1) (m.page + 2) in
    elim (Bool-cases (leb t 7)) [
      | inl few ↦ rw few (range-IsLink t 1 t (omega arith) (omega arith))
      | inr many ↦ rw many (
        (omega arith, p),
        All-ellipsis_if t (ltb 4 m.page) _ (
            All-append t (range lo (suc hi - lo)) _
              (range-IsLink t lo (suc hi - lo) (omega arith) (ground arith))
              (All-ellipsis_if t (ltb m.page (t - 3)) (pos t ∷ []) ((p, omega arith), tt))),
      )
    ]

at_least_one-pos : (z : ℤ) → 1 ≤ at_least_one z
at_least_one-pos (pos n) = omega arith
at_least_one-pos (negsuc n) = omega arith

size_or_ten-pos : (z : ℤ) → 1 ≤ size_or_ten z
size_or_ten-pos (pos zero) = omega arith
size_or_ten-pos (pos (suc n)) = omega arith
size_or_ten-pos (negsuc n) = omega arith

-- Whatever page and size are asked for, the page is one that there is, the size is positive, and
-- each page number is a page that there is or the ellipsis.
pub make_paginate_meta_bounds :
    (total : ℕ) (page page_size : ℤ)
    → (1 ≤ (make_paginate_meta total page page_size).page)
      × ((make_paginate_meta total page page_size).page
          ≤ (make_paginate_meta total page page_size).total_pages)
      × (1 ≤ (make_paginate_meta total page page_size).page_size)
      × All
          (IsLink (make_paginate_meta total page page_size).total_pages)
          (page_numbers (make_paginate_meta total page page_size))
unfolding make_paginate_meta
make_paginate_meta_bounds total page page_size =
    let one = at_least_one-pos page in
    (
      omega arith,
      omega arith,
      size_or_ten-pos page_size,
      page_numbers-IsLink (make_paginate_meta total page page_size) (omega arith) (omega arith),
    )
