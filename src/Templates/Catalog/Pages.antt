-- ===== src/Templates/Catalog/Pages.antt =====
-- `FeCatalogService::paginate` on the list that `list` gave: the filter, the pinned template and
-- the page. An `int` has 32 bits; `size_t` has 64, which is enough for the product of two of them.
pub mod Pinned
pub mod Laws
use cppadmin.Base.{
  ℕ, zero, suc, ◌+◌, ◌-◌, ◌*◌, ◌/◌, ◌^◌, ltb, Bytes, Bool, true, false, ◌&&◌, ◌||◌, List, [], ◌∷◌,
  ◌++◌, Option, none, some, map, is_empty, take, drop, length, ◌==◌, bytes_eq, bytes_beq,
  if◌then◌else◌,
}
use cppadmin.Base.Int.{ℤ, pos, negsuc}
use cppadmin.Templates.Slug.{Item}
use cppadmin.Templates.Store.{to_lower, contains_text}

unfoldable pub contains_ci : Bytes → Bytes → Bool
contains_ci haystack needle = contains_text (map to_lower needle) (map to_lower haystack)

unfoldable pub is_wanted : Bytes → Bytes → Item → Bool
unfolding contains_ci
is_wanted name category t =
    (is_empty name || (contains_ci t.name name || contains_ci t.slug name))
    && (is_empty category || t.category == category)

unfoldable pub filtered : Bytes → Bytes → List Item → List Item
unfolding is_wanted
filtered name category [] = []
filtered name category (t ∷ ts) =
    let rest = filtered name category ts in if is_wanted name category t then t ∷ rest else rest

-- The first item of the slug, and the list without it.
unfoldable pub taken_out : Bytes → List Item → Option (Item × List Item)
taken_out slug [] = none
taken_out slug (t ∷ ts) =
    let rest = taken_out slug ts in
    if t.slug == slug
    then some (t, ts)
    else elim rest [ none ↦ none | some (found, others) ↦ some (found, t ∷ others) ]

-- An item that is found at the front is put where it was.
unfoldable pub pinned : Bytes → List Item → List Item
unfolding taken_out
pinned slug items =
    if is_empty slug
    then items
    else elim (taken_out slug items) [ none ↦ items | some (found, others) ↦ found ∷ others ]

pub record CatalogPage : Type 0 where
  pub datas : List Item
  pub total_data : ℕ
  pub total_pages : ℤ
  pub current_page : ℕ
  pub page_size : ℕ

-- x > 0 ? x : n
abbrev pub positive_or : ℕ → ℤ → ℕ
positive_or n (pos zero) = n
positive_or n (pos (suc k)) = suc k
positive_or n (negsuc k) = n

-- -n
abbrev pub negated : ℕ → ℤ
negated zero = pos zero
negated (suc k) = negsuc k

-- totalData + pageSize - 1 as an `int` that wraps around, which the standard leaves open, and
-- its quotient towards zero.
abbrev pub page_count : ℕ → ℕ → ℤ
page_count total size =
    if ltb (total + size - 1) (2 ^ 31)
    then pos ((total + size - 1) / size)
    else negated ((2 ^ 32 - (total + size - 1)) / size)

-- The loop from `start` over at most a page of items.
unfoldable pub page_items : ℕ → ℕ → List Item → List Item
page_items start size items = take size (drop start items)

unfoldable pub paginate : Bytes → Bytes → ℤ → ℤ → Bytes → List Item → CatalogPage
unfolding filtered pinned page_items
paginate name category page page_size pin all =
    let items = pinned pin (filtered name category all) in
    let size = positive_or 12 page_size in
    let current = positive_or 1 page in
    record {
      datas = page_items ((current - 1) * size) size items;
      total_data = length items;
      total_pages = page_count (length items) size;
      current_page = current;
      page_size = size;
    }
