-- ===== src/Templates/Tests.antt =====
-- Slugs, downloads and the catalogue at concrete values.
use mathlib.Core.List.{Perm}
use cppadmin.Base.{
  ◌^◌, ◌+◌, is_empty, if◌then◌else◌, ap, ◌<◌, ◌≤◌, ◌≡◌, ◌≢◌, ◌↔◌, refl, arith, Bytes, bytes,
  bytes_beq, true, false, ◌||◌, any, List, [], ◌∷◌, ◌++◌, none, some, length, starts_with, ◌==◌,
  bytes_eq,
}
use cppadmin.Base.Int.{pos}
use cppadmin.Error.{Error}
use cppadmin.Error.Effect.{ok, err}
use cppadmin.Templates.Slug.{
  Item, Groups, match_slug, is_valid_slug, all_slug_bytes, derive, titleize,
}
use cppadmin.Templates.Slug.Pattern.{IsWords, IsNumber, IsSlugName, match_slug_iff}
use cppadmin.Templates.Store.{
  template_url, Response, Folder, ensure, get_active_html, is_cached, is_default_view,
}
use cppadmin.Templates.Store.Network.{get_active_html-fetches}
use cppadmin.Templates.Store.Laws.{IsSound, ensure-IsSound}
use cppadmin.Templates.Catalog.{
  Catalog, list, tree_url, fetched, parse_tree, tree_items, node_items, path_items, field,
  ends_with,
}
use cppadmin.Templates.Catalog.Laws.{list_sound}
use cppadmin.Templates.Catalog.Restart.{restarted, AddsNone, list-restarted}
use cppadmin.Templates.Catalog.Pages.{paginate, filtered, is_wanted}
use cppadmin.Templates.Catalog.Pages.Pinned.{first_slug}
use cppadmin.Templates.Catalog.Pages.Laws.{gathered, announced, paginate_complete}
use cppadmin.Templates.Plain.{plain, plain-ReadsBack}

abbrev law_firm : Groups
law_firm = record { category = bytes "law-firm"; number = bytes "001"; name = bytes "small" }

match_slug_iff_example : (match_slug (bytes "law-firm-001-small") ≡ some law_firm) ↔ (
    (bytes "law-firm-001-small"
      ≡ law_firm.category ++ (b'-' ∷ (law_firm.number ++ (b'-' ∷ law_firm.name))))
    × (IsWords true law_firm.category × (IsNumber law_firm.number × IsSlugName law_firm.name)))
match_slug_iff_example = match_slug_iff (bytes "law-firm-001-small") law_firm

-- A category ends in a letter, and the number has three digits.
slugs :
    (is_valid_slug (bytes "law-firm-001-small") ≡ true)
    × ((is_valid_slug (bytes "law--001-small") ≡ false)
        × (is_valid_slug (bytes "law-01-small") ≡ false))
unfolding is_valid_slug match_slug all_slug_bytes bytes bytes_beq
slugs = (refl, (refl, refl))

derived : (derive (bytes "law-firm-001-small")).category ≡ bytes "Law Firm"
unfolding derive match_slug titleize all_slug_bytes bytes
derived = refl

-- A network that gives one page at every address.
abbrev page : Bytes → Response
page url = record { status = 200; body = bytes "<p></p></HTML>"; error = [] }

abbrev empty : Folder
empty = record { file = λ slug. none; is_writable = true }

empty-IsSound : IsSound empty
empty-IsSound slug html e = absurd (ground arith)

ensure_example :
    IsSound (ensure page (bytes "a-001-b") empty).1
    × (((e : Error)
          → (ensure page (bytes "a-001-b") empty).0 ≡ err e
          → (ensure page (bytes "a-001-b") empty).1 ≡ empty)
        × ((ensure page (bytes "a-001-b") empty).0 ≡ ok tt
            → (is_valid_slug (bytes "a-001-b") ≡ true)
              × ((is_default_view (bytes "a-001-b")
                    || is_cached (ensure page (bytes "a-001-b") empty).1 (bytes "a-001-b"))
                  ≡ true)))
ensure_example = ensure-IsSound page (bytes "a-001-b") empty empty-IsSound

-- A network that gives the page at every address but the empty one.
abbrev partial : Bytes → Response
partial url = if is_empty url then record { status = 500; body = []; error = [] } else page url

networks_differ : page [] ≢ partial []
networks_differ e = absurd (let status = ap (λ (r : Response). r.status) e in omega (arith, status))

partial-agrees : (slug : Bytes) → page (template_url slug) ≡ partial (template_url slug)
unfolding bytes template_url
partial-agrees slug = refl

get_active_html-fetches_example :
    (ensure page (bytes "a-001-b") empty ≡ ensure partial (bytes "a-001-b") empty)
    × (get_active_html page (bytes "a-001-b") empty
        ≡ get_active_html partial (bytes "a-001-b") empty)
get_active_html-fetches_example =
    get_active_html-fetches page partial (bytes "a-001-b") empty (λ slug p q. partial-agrees slug)

abbrev items : List Item
items =
    record { slug = bytes "a"; name = bytes "A"; category = [] }
    ∷ record { slug = bytes "b"; name = bytes "B"; category = [] }
    ∷ record { slug = bytes "c"; name = bytes "C"; category = [] }
    ∷ []

fits : length (filtered [] [] items) + 2 ≤ 2 ^ 31
unfolding filtered is_wanted
fits = omega arith

catalogue_pages_example :
    Perm
      (gathered [] [] 1
        (pos 2)
        (bytes "c")
        items
        (announced (paginate [] [] (pos 1) (pos 2) (bytes "c") items).total_pages))
      (filtered [] [] items)
    × ((bytes "c" ≢ []
          → any (λ t. t.slug == bytes "c") (filtered [] [] items) ≡ true
          → first_slug (
              gathered [] [] 1
                (pos 2)
                (bytes "c")
                items
                (announced (paginate [] [] (pos 1) (pos 2) (bytes "c") items).total_pages))
            ≡ some (bytes "c"))
        × (length (paginate [] [] (pos 1) (pos 2) (bytes "c") items).datas
            ≤ (paginate [] [] (pos 1) (pos 2) (bytes "c") items).page_size))
catalogue_pages_example = paginate_complete [] [] (pos 1) (pos 2) (bytes "c") items fits

abbrev started : Catalog
started = record { memo = []; memo_at = 0; disk = none; is_writable = true }

abbrev unsorted : List Item → List Item
unsorted xs = xs

list_example :
    ((list plain unsorted page 5 started).0 ≢ [])
    × (9 < 5 + 21600
        → list plain unsorted page 9 (list plain unsorted page 5 started).1
          ≡ list plain unsorted page 5 started)
    × (5 + 21600 ≤ 9
        → list plain unsorted page 9 (list plain unsorted page 5 started).1
          ≡ list plain unsorted page 9
              (record (list plain unsorted page 5 started).1 { memo = [] }))
list_example = list_sound plain unsorted page page 5 9 started refl

unsorted-AddsNone : AddsNone unsorted
unsorted-AddsNone P xs p = p

fetched_some : fetched plain unsorted (page tree_url) ≢ []
unfolding fetched plain parse_tree tree_items node_items path_items field ends_with bytes bytes_beq
    starts_with
fetched_some h = absurd (ground arith)

list-restarted_example :
    (list plain unsorted page 9 (restarted (list plain unsorted page 5 started).1)).0
    ≡ (list plain unsorted page 5 started).0
list-restarted_example =
    list-restarted plain plain-ReadsBack unsorted unsorted-AddsNone page page 5 9 started refl refl
      fetched_some
