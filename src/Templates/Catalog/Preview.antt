-- ===== src/Templates/Catalog/Preview.antt =====
-- `FeCatalogService::previewHtml`: the page of a listed template, from the folder or the network.
use cppadmin.Base.{
  ℕ, Bytes, bytes, true, false, not, List, Option, none, some, is_empty, nat_beq, ◌≡◌, ◌++◌,
  if◌then◌else◌, ◌⊎◌, inl, inr, refl, arith, Bool-cases, Option-cases, any, ◌==◌, bytes_eq, subst,
}
use cppadmin.Error.{Error, app}
use cppadmin.Error.Effect.{Result, ok, err}
use cppadmin.Services.Auth.Otp.{decimal}
use cppadmin.Templates.Slug.{Item}
use cppadmin.Templates.Store.{Response, Folder, looks_like_html, template_url}
use cppadmin.Templates.Catalog.{Json, Catalog, list, has}

-- `readLocal`
abbrev whole_page : Option Bytes → Option Bytes
whole_page none = none
whole_page (some html) = if looks_like_html html then some html else none

unfoldable pub read_local : Folder → Bytes → Option Bytes
read_local folder slug = whole_page (folder.file slug)

-- What the code throws at the response, and catches.
unfoldable pub failure : Response → Option Bytes
failure res =
    if not (is_empty res.error)
    then some res.error
    else if not (nat_beq res.status 200)
    then some (bytes "HTTP " ++ decimal res.status res.status)
    else if not (looks_like_html res.body)
    then some (bytes "HTML tidak valid")
    else none

abbrev or_fail : Option Bytes → Bytes → Result Bytes
or_fail (some page) reason = ok page
or_fail none reason = err (app (bytes "Gagal mengambil preview: " ++ reason) 502)

abbrev fetched_or : Response → Option Bytes → Option Bytes → Result Bytes
fetched_or res local none = ok res.body
fetched_or res local (some reason) = or_fail local reason

abbrev local_or : Result Bytes → Option Bytes → Result Bytes
local_or fetched (some page) = ok page
local_or fetched none = fetched

module _ (json : Json) (sort : List Item → List Item) (http : Bytes → Response) where
  unfoldable pub preview_html : Bytes → Folder → ℕ → Catalog → Result Bytes × Catalog
  unfolding read_local failure has
  preview_html slug folder now c =
      let local = read_local folder slug in
      let res = http (template_url slug) in
      let (found, next) = has json sort http slug now c in
      if not found
      then (err (app (bytes "Template tidak dikenali") 400), next)
      else (local_or (fetched_or res local (failure res)) local, next)

read_local-whole :
    (folder : Folder) (slug page : Bytes)
    → read_local folder slug ≡ some page
    → looks_like_html page ≡ true
unfolding read_local
read_local-whole folder slug page e = elim (Option-cases (folder.file slug)) [
  | inl no_file ↦ absurd (ground arith)
  | inr (html, file) ↦ ground arith
]

failure-none : (res : Response) → failure res ≡ none → looks_like_html res.body ≡ true
unfolding failure
failure-none res e = ground arith

local_or_sound :
    (folder : Folder) (slug : Bytes) (res : Response) (page : Bytes)
    → local_or (fetched_or res (read_local folder slug) (failure res)) (read_local folder slug)
      ≡ ok page
    → looks_like_html page ≡ true
local_or_sound folder slug res page e = elim (Option-cases (read_local folder slug)) [
  | inr (html, there) ↦
      let same : html ≡ page = ground arith in
      subst (λ p. looks_like_html p ≡ true) same (read_local-whole folder slug html there)
  | inl absent ↦ elim (Option-cases (failure res)) [
    | inl fine ↦
        let same : res.body ≡ page = ground arith in
        subst (λ p. looks_like_html p ≡ true) same (failure-none res fine)
    | inr (reason, failed) ↦ absurd (ground arith)
  ]
]

local_or-refused :
    (local : Option Bytes) (res : Response) (o : Option Bytes) (e : Error)
    → local_or (fetched_or res local o) local ≡ err e
    → (reason : Bytes) × (e ≡ app (bytes "Gagal mengambil preview: " ++ reason) 502)
local_or-refused (some page) res o e h = absurd (ground arith)
local_or-refused none res none e h = absurd (ground arith)
local_or-refused none res (some reason) e h = (reason, ground arith)

-- A preview that is shown is a whole page of a slug in the catalogue. A slug that is not in the
-- catalogue is refused with 400 before anything is fetched for it, and any other failure is a 502.
pub preview_html_sound :
    (json : Json) (sort : List Item → List Item) (http : Bytes → Response) (slug : Bytes)
    (folder : Folder) (now : ℕ) (c : Catalog)
    → ((any (λ t. t.slug == slug) (list json sort http now c).0 ≡ true)
        × (((page : Bytes)
              → (preview_html json sort http slug folder now c).0 ≡ ok page
              → looks_like_html page ≡ true)
            × ((e : Error)
                → (preview_html json sort http slug folder now c).0 ≡ err e
                → (reason : Bytes) × (e ≡ app (bytes "Gagal mengambil preview: " ++ reason) 502))))
      ⊎ ((any (λ t. t.slug == slug) (list json sort http now c).0 ≡ false)
          × ((preview_html json sort http slug folder now c).0
              ≡ err (app (bytes "Template tidak dikenali") 400)))
unfolding preview_html has
preview_html_sound json sort http slug folder now c =
    elim (Bool-cases (any (λ t. t.slug == slug) (list json sort http now c).0)) [
      | inr unlisted ↦ inr (unlisted, rw unlisted refl)
      | inl listed ↦ inl (
        listed,
        rw listed (
          local_or_sound folder slug (http (template_url slug)),
          local_or-refused (read_local folder slug) (http (template_url slug)) _,
        ),
      )
    ]
