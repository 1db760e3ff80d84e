-- ===== src/Storage/Upload.antt =====
-- include/helpers/UploadHelper.h. `clock` is the count of the system clock, `now` its seconds, and
-- `random` the first number of the generator with that seed. The key that a generator and the
-- clock make is printed with the fuel of `number`.
pub mod Laws
mod Tests
use cppadmin.Base.{
  ℕ, Bytes, bytes, Bool, true, false, ◌||◌, ◌&&◌, ◌+◌, ◌*◌, ◌%◌, ◌^◌, List, [], ◌∷◌, ◌++◌, Option,
  none, some, map, is_empty, nat_beq, leb, ltb, starts_with, length, ◌==◌, bytes_eq, bytes_beq,
  if◌then◌else◌,
}
use cppadmin.Error.{Error, app}
use cppadmin.Error.Effect.{Result, ok, err, Effect, throw, throw_if, pure, ◌>>=◌, ◌>>◌}
use cppadmin.Templates.Store.{to_lower}
use cppadmin.Web.Form.{FormRequest, form_file}
use cppadmin.Storage.Presign.{Config, Crypto, number}
use cppadmin.Storage.Objects.{CurlResult, Disk, url, save}

-- 2 MB
abbrev pub max_image_bytes : ℕ
max_image_bytes = 2 * 1024 * 1024

abbrev pub image_mime : List (Bytes × Bytes)
image_mime =
    (bytes "jpg", bytes "image/jpeg")
    ∷ (bytes "jpeg", bytes "image/jpeg")
    ∷ (bytes "png", bytes "image/png")
    ∷ (bytes "gif", bytes "image/gif")
    ∷ (bytes "webp", bytes "image/webp")
    ∷ (bytes "svg", bytes "image/svg+xml")
    ∷ (bytes "ico", bytes "image/x-icon")
    ∷ []

-- map::find
unfoldable pub mime_in : List (Bytes × Bytes) → Bytes → Option Bytes
mime_in [] ext = none
mime_in ((e, mime) ∷ rows) ext = let rest = mime_in rows ext in if e == ext then some mime else rest

-- What stands behind the last dot.
unfoldable pub after_dot : Bytes → Option Bytes
after_dot [] = none
after_dot (c ∷ s) = elim (after_dot s) [
  | some ext ↦ some ext
  | none ↦ if nat_beq c b'.' then some s else none
]

unfoldable pub extension : Bytes → Bytes
extension file_name = elim (after_dot file_name) [ some ext ↦ map to_lower ext | none ↦ [] ]

-- Now, where the file is kept and under which address it is shown.
module _ (cr : Crypto) (cfg : Config) where
  unfoldable pub url_of : Bytes → ℕ → ℕ → Bytes
  url_of [] ttl now = []
  url_of (c ∷ s) ttl now =
      if starts_with (c ∷ s) (bytes "http://")
        || (starts_with (c ∷ s) (bytes "https://") || nat_beq c b'/')
      then c ∷ s
      else url cr cfg (c ∷ s) ttl now

unfoldable pub object_key : Bytes → ℕ → ℕ → Bytes → Bytes
object_key key_prefix clock random ext =
    key_prefix ++ (number clock ++ (b'-' ∷ (number (random % 2 ^ 32) ++ (b'.' ∷ ext))))

module _ (cr : Crypto) (cfg : Config) (send : Bytes → Bytes → Bytes → List Bytes → CurlResult) where
  abbrev pub saved_as : Bytes → Option Bytes → Bytes → Bytes → ℕ → Effect Disk Bytes
  saved_as field none key content now =
      throw (app (field ++ bytes ": type not allowed. Use jpg, png, gif, webp, svg, ico.") 422)
  saved_as field (some mime) key content now = do save cr cfg send key content mime now; pure key

  abbrev pub image_of : Bytes → Bytes → ℕ → ℕ → ℕ → Option (Bytes × Bytes) → Effect Disk Bytes
  image_of field key_prefix clock now random none = pure []
  image_of field key_prefix clock now random (some (content, file_name)) = do
    throw_if (ltb max_image_bytes (length content))
        (app (field ++ bytes ": file too large. Maximum 2MB.") 422)
    saved_as field (mime_in image_mime (extension file_name))
        (object_key key_prefix clock random (extension file_name)) content now

  -- The request keeps the parts of the form.
  unfoldable pub image_if_any :
      Bytes → Bytes → ℕ → ℕ → ℕ → FormRequest → Disk → (Result Bytes × Disk) × FormRequest
  image_if_any field key_prefix clock now random req disk =
      let form = form_file field req in
      (image_of field key_prefix clock now random form.0 disk, form.1)
