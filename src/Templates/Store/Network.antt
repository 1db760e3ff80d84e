-- ===== src/Templates/Store/Network.antt =====
-- Which answers of the network the folder and the page of the site depend on.
use cppadmin.Base.{
  Bytes, bytes, true, not, ◌||◌, [], none, ◌≡◌, ◌≢◌, inl, inr, refl, ap, All, Bool-cases, bytes_eq,
  if◌then◌else◌,
}
use cppadmin.Error.{app}
use cppadmin.Error.Effect.{ok, err}
use cppadmin.Templates.Slug.{is_valid_slug, is_slug_byte}
use cppadmin.Templates.Slug.Pattern.{is_valid_slug_sound}
use cppadmin.Templates.Store.{
  Response, Folder, is_cached, template_url, download, ensure, is_default_view, get_active_slug,
  get_active_html, target,
}

module _ (http other_http : Bytes → Response)
    (agree : (slug : Bytes)
      → slug ≢ []
      → All (λ c. is_slug_byte c ≡ true) slug
      → http (template_url slug) ≡ other_http (template_url slug)) where
  ensure-agree :
      (slug : Bytes) (folder : Folder) → ensure http slug folder ≡ ensure other_http slug folder
  unfolding ensure
  ensure-agree slug folder = elim (Bool-cases (is_valid_slug slug)) [
    | inr bad ↦ rw bad refl
    | inl valid ↦
        let (some_byte, safe) = is_valid_slug_sound slug valid in
        ap
          (λ res.
            if not (is_valid_slug slug)
            then (err (app (bytes "Template tidak dikenali") 400), folder)
            else if is_default_view slug || is_cached folder slug
            then (ok tt, folder)
            else download slug res folder)
          (agree slug some_byte safe)
  ]

  get_active_html-agree :
      (raw : Bytes) (folder : Folder)
      → get_active_html http raw folder ≡ get_active_html other_http raw folder
  unfolding get_active_html
  get_active_html-agree raw folder =
      let slug = get_active_slug raw in
      ap
        (λ done.
          let next = if not (is_cached folder slug) then done.1 else folder in
          if is_default_view slug then (none, folder) else (next.file (target slug next), next))
        (ensure-agree slug folder)

-- `ensure` and the page of the site learn nothing from the network but the answers for the
-- addresses of slugs that hold only lower-case letters, digits and dashes: with two networks that
-- agree on those addresses they do the same.
pub get_active_html-fetches :
    (http other_http : Bytes → Response) (raw : Bytes) (folder : Folder)
    → ((slug : Bytes)
        → slug ≢ []
        → All (λ c. is_slug_byte c ≡ true) slug
        → http (template_url slug) ≡ other_http (template_url slug))
    → (ensure http raw folder ≡ ensure other_http raw folder)
      × (get_active_html http raw folder ≡ get_active_html other_http raw folder)
get_active_html-fetches http other_http raw folder agree = (
  ensure-agree http other_http agree raw folder,
  get_active_html-agree http other_http agree raw folder,
)
