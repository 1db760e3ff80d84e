-- ===== src/Templates/Store.antt =====
-- services/FeTemplateService.cc: the folder of downloaded templates. `http` stands for
-- `httpGetCoro`, from an address to its response; the folder is a map from slugs to contents, and
-- `is_writable` tells whether a file can be opened for writing. A file that opens is taken to be
-- written whole; the source does not check the write.
pub mod Laws
pub mod Network
use cppadmin.Base.{
  ℕ, ◌+◌, Bytes, bytes, Bool, true, false, not, ◌&&◌, ◌||◌, leb, List, [], ◌∷◌, ◌++◌, Option, none,
  some, map, nat_beq, is_empty, ◌==◌, bytes_eq, bytes_beq, if◌then◌else◌,
}
use cppadmin.Base.Search.{split_on}
use cppadmin.Error.{Error, app, other}
use cppadmin.Error.Effect.{Result, ok, err, Effect, throw_if, writes, ◌>>=◌, ◌>>◌, pure}
use cppadmin.Services.Auth.Otp.{decimal}
use cppadmin.Templates.Slug.{is_valid_slug, default_view, default_slug}

-- HttpFetchResult
pub record Response : Type 0 where
  pub status : ℕ
  pub body : Bytes
  pub error : Bytes

pub record Folder : Type 0 where
  pub file : Bytes → Option Bytes
  pub is_writable : Bool

-- std::tolower
abbrev pub to_lower : ℕ → ℕ
to_lower c = if leb b'A' c && leb c b'Z' then c + 32 else c

abbrev pub contains_text : Bytes → Bytes → Bool
contains_text key s = elim (split_on key s) [ none ↦ false | some _ ↦ true ]

unfoldable pub looks_like_html : Bytes → Bool
looks_like_html html = contains_text (bytes "</html>") (map to_lower html)

unfoldable pub is_cached : Folder → Bytes → Bool
is_cached folder slug = elim (folder.file slug) [ none ↦ false | some _ ↦ true ]

unfoldable pub get_active_slug : Bytes → Bytes
get_active_slug raw = if is_valid_slug raw then raw else default_slug

abbrev pub is_default_view : Bytes → Bool
is_default_view slug = slug == default_view

-- `ofstream out(feFile(slug), trunc); out << html;`
unfoldable pub saved : Bytes → Bytes → Folder → Folder
saved slug html folder = record folder {
  file = λ s. if s == slug then some html else folder.file s;
}

abbrev pub base_url : Bytes
base_url = bytes "https://raw.githubusercontent.com/lindoai/opentailwind/master/landings"

unfoldable pub template_url : Bytes → Bytes
template_url slug = base_url ++ (b'/' ∷ (slug ++ bytes ".html"))

unfoldable pub write_file : Bytes → Bytes → Effect Folder (Unit {0})
unfolding saved
write_file slug html folder =
    if folder.is_writable
    then (ok tt, saved slug html folder)
    else (err (app (bytes "Gagal menyimpan template ke cache") 500), folder)

-- `ensure` from the response on.
unfoldable pub download : Bytes → Response → Effect Folder (Unit {0})
download slug res = do
  throw_if (not (is_empty res.error)) (app (bytes "Gagal mengunduh template: " ++ res.error) 502)
  throw_if (not (nat_beq res.status 200))
      (app (bytes "Gagal mengunduh template: HTTP " ++ decimal res.status res.status) 502)
  throw_if (not (looks_like_html res.body)) (app (bytes "Template terunduh tidak valid") 502)
  write_file slug res.body

abbrev pub target : Bytes → Folder → Bytes
target slug folder = if is_cached folder slug then slug else default_slug

module _ (http : Bytes → Response) where
  unfoldable pub ensure : Bytes → Effect Folder (Unit {0})
  unfolding download is_cached
  ensure slug folder =
      if not (is_valid_slug slug)
      then (err (app (bytes "Template tidak dikenali") 400), folder)
      else if is_default_view slug || is_cached folder slug
      then (ok tt, folder)
      else download slug (http (template_url slug)) folder

  abbrev pub after_ensure : Bytes → Folder → Folder
  after_ensure slug folder = if not (is_cached folder slug) then (ensure slug folder).1 else folder

  -- The `AppError` of `ensure` is caught.
  unfoldable pub get_active_html : Bytes → Folder → Option Bytes × Folder
  get_active_html raw folder =
      let slug = get_active_slug raw in
      let next = after_ensure slug folder in
      if is_default_view slug then (none, folder) else (next.file (target slug next), next)
